-- ===== src/Domain/Doctor.antt =====
-- `redact_sensitive_text` of src/devloop/domain/doctor.py. What its regular expressions substitute is
-- a parameter; the limit on the text is written out.
use devloop.Protocol.Payload.{text_length}
use devloop.Prelude.{
  inl, refl, inr, arith, Bool-cases, ◌+◌, ap, ◌≤◌, ◌≡◌, not, ltb, if◌then◌else◌, ℕ, zero, suc, ◌-◌,
  String,
}

-- `"." * count`
abbrev dots : ℕ → String
dots zero = ""
dots (suc count) = String.◌∷◌ "." (dots count)

-- `text[:count] + "..."`
abbrev ellipsis : ℕ → String → String
ellipsis zero text = "..."
ellipsis (suc count) String.[] = "..."
ellipsis (suc count) (String.◌∷◌ c rest) = String.◌∷◌ c (ellipsis count rest)

unfoldable pub redact_sensitive_text : (String → String) → String → ℕ → String
redact_sensitive_text substitute value limit =
    let redacted = substitute value in
    if not (ltb limit (text_length redacted))
    then redacted
    else if not (ltb 3 limit)
    then dots limit
    else ellipsis (limit - 3) redacted

length-dots : (count : ℕ) → text_length (dots count) ≡ count
length-dots zero = refl
length-dots (suc count) = ap suc (length-dots count)

length-ellipsis : (count : ℕ) (text : String) → text_length (ellipsis count text) ≤ count + 3
length-ellipsis zero text = omega arith
length-ellipsis (suc count) String.[] = omega arith
length-ellipsis (suc count) (String.◌∷◌ c rest) =
    let shorter = length-ellipsis count rest in omega arith

-- What is left of a text is no longer than the limit.
pub length-redact_sensitive_text :
    (substitute : String → String) (value : String) (limit : ℕ)
    → text_length (redact_sensitive_text substitute value limit) ≤ limit
unfolding redact_sensitive_text
length-redact_sensitive_text substitute value limit =
    let text = substitute value in
    elim (Bool-cases (ltb limit (text_length text))) [
      | inr short ↦ rw short (ground arith)
      | inl long ↦ elim (Bool-cases (ltb 3 limit)) [
        | inr low ↦ rw (long, low) (let n = length-dots limit in omega arith)
        | inl high ↦
            let n = length-ellipsis (limit - 3) text in
            rw (long, high) (let room : 3 ≤ limit = ground arith in omega arith)
      ]
    ]
