-- ===== src/EmailDispatch/Address.antt =====
-- The recipient's address in app/tools/email_dispatch.py: `_EMAIL_RE` and the blocked domains.
use Prim.Native.Char.{Char, code}
use marketing_agentic_system.Common.{
  ℕ, String, Bool, true, false, ◌&&◌, ◌||◌, [], ◌∷◌, List, leb, ◌==◌, if◌then◌else◌, str_eq,
  any_where,
}
use marketing_agentic_system.Common.Text.{lower}

between : ℕ → ℕ → Char → Bool
between low high c = leb low (code c) && leb (code c) high

-- [a-zA-Z0-9-]
unfoldable pub is_domain_char : Char → Bool
unfolding between
is_domain_char c = between 97 122 c || between 65 90 c || between 48 57 c || (code c == 45)

-- [a-zA-Z0-9_.+-]
unfoldable pub is_local_char : Char → Bool
unfolding is_domain_char
is_local_char c = is_domain_char c || (code c == 95) || (code c == 46) || (code c == 43)

-- [a-zA-Z0-9-]+(\.[a-zA-Z0-9-]+)+ : whether a dot came, and whether the current label has begun.
unfoldable pub is_domain : Bool → Bool → String → Bool
is_domain dotted begun String.[] = dotted && begun
is_domain dotted begun (String.◌∷◌ c s) =
    let next_label = is_domain true false s in
    let same_label = is_domain dotted true s in
    if code c == 46 then begun && next_label else is_domain_char c && same_label

-- [a-zA-Z0-9_.+-]+ and what follows the @.
unfoldable pub is_address : Bool → String → Bool
is_address begun String.[] = false
is_address begun (String.◌∷◌ c s) =
    let rest = is_address true s in
    if code c == 64 then begun && is_domain false false s else is_local_char c && rest

-- _EMAIL_RE.match(email), for a text without a line break at its end.
unfoldable pub matches_email : String → Bool
unfolding is_address
matches_email = is_address false

-- email.rsplit("@", 1)[-1]: `last` is the text after the last @ so far.
unfoldable pub after_last_at : String → String → String
after_last_at last String.[] = last
after_last_at last (String.◌∷◌ c s) = after_last_at (if code c == 64 then s else last) s

unfoldable pub domain_of : String → String
domain_of email = lower (after_last_at email email)

-- _BLOCKED_RECIPIENT_DOMAINS
abbrev pub blocked_recipient_domains : List String
blocked_recipient_domains = "example.com" ∷ "example.org" ∷ "example.net" ∷ "test.test" ∷ []

abbrev pub member_of : String → List String → Bool
member_of s l = any_where (str_eq s) l
