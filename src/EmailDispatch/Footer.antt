-- ===== src/EmailDispatch/Footer.antt =====
-- The message of app/tools/email_dispatch.py: `_build_message` and the footers that it injects.
use Prim.Native.String.{◌++◌ as append}
use marketing_agentic_system.Common.{
  String, Bool, true, false, not, ◌&&◌, ◌||◌, Option, none, some, List, [], ◌∷◌, if◌then◌else◌,
  any_where,
}
use marketing_agentic_system.Common.Text.{lower, strip, contains, replace_newline}
use marketing_agentic_system.Data.{Result, ok, err, Error, exception}
use marketing_agentic_system.EmailDispatch.Address.{member_of}

pub record EmailMessage : Type 0 where
  pub subject : String
  pub html_body : Option String
  pub text_body : Option String
  pub headers : List (String × String)
  pub reply_to : Option String

pub record ComplianceFooter : Type 0 where
  pub unsubscribe_url : String
  pub postal_address : String

abbrev pub validation_error : Error
validation_error = exception "DispatchValidationError"

abbrev pub is_empty : String → Bool
is_empty String.[] = true
is_empty (String.◌∷◌ c s) = false

-- _FORBIDDEN_HEADERS
abbrev pub forbidden_headers : List String
forbidden_headers =
    "return-path" ∷ "x-mailer" ∷ "received" ∷ "dkim-signature" ∷ "list-unsubscribe"
    ∷ "list-unsubscribe-post" ∷ []

-- Whether the body shows the link or the address already.
unfoldable pub shows_footer : String → String → String → Bool
shows_footer unsub addr body =
    (not (is_empty unsub) && contains body unsub) || (not (is_empty addr) && contains body addr)

-- separator.join of the parts that are there
unfoldable pub join_two : String → Bool → String → Bool → String → String
join_two separator false a false b = ""
join_two separator false a true b = b
join_two separator true a false b = a
join_two separator true a true b = append a (append separator b)

unfoldable pub inject_footer :
    (String → String → String) → ComplianceFooter → Option String → Option String
inject_footer footer_of footer none = none
inject_footer footer_of footer (some body) =
    let unsub = strip footer.unsubscribe_url in
    let addr = strip footer.postal_address in
    if is_empty unsub && is_empty addr
    then some body
    else (if shows_footer unsub addr body
        then some body
        else some (append body (footer_of unsub addr)))

unfoldable pub footer_text : String → String → String
unfolding join_two
footer_text unsub addr =
    append "\n\n---\n" (
      join_two "\n" (not (is_empty unsub)) (append "Unsubscribe: " unsub) (not (is_empty addr))
        addr)

unfoldable pub footer_html : String → String → String
unfolding join_two
footer_html unsub addr =
    append
      "<hr style=\"margin-top:24px;border:none;border-top:1px solid #ddd\"/><p style=\"font-size:12px;color:#666;margin-top:12px\">"
      (append
        (join_two " · " (not (is_empty unsub))
          (append "<a href=\"" (append unsub "\">Unsubscribe</a>")) (not (is_empty addr))
          (replace_newline "<br>" addr))
        "</p>")

-- _inject_footer_text
unfoldable pub inject_footer_text : ComplianceFooter → Option String → Option String
unfolding inject_footer
inject_footer_text = inject_footer footer_text

-- _inject_footer_html
unfoldable pub inject_footer_html : ComplianceFooter → Option String → Option String
unfolding inject_footer
inject_footer_html = inject_footer footer_html

unfoldable pub with_footer : Option ComplianceFooter → EmailMessage → EmailMessage
with_footer none message = message
with_footer (some footer) message = record message {
  html_body = inject_footer_html footer message.html_body;
  text_body = inject_footer_text footer message.text_body;
}

unfoldable pub build_message : EmailMessage → Option ComplianceFooter → Result EmailMessage
unfolding with_footer
build_message payload compliance_footer =
    if is_empty (strip payload.subject)
    then err validation_error
    else (if any_where (λ (h : String × String). member_of (lower h.0) forbidden_headers)
          payload.headers
        then err validation_error
        else ok
            (with_footer compliance_footer (record payload { subject = strip payload.subject })))
