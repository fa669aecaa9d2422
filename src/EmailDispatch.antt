-- ===== src/EmailDispatch.antt =====
-- app/tools/email_dispatch.py: the tool through which every e-mail goes, and the connector's side of it
-- (app/integrations/email/base.py). The provider is an argument.
pub mod Address
pub mod Footer
pub mod Tool
pub mod Screened
