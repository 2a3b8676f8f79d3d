-- ===== src/Adapter/Envelope.antt =====
-- The JSON of the error envelope of adapter/adapter.go, read by the rules of JSON strings.
use yggdrasil_sdk_go.Base.{
  true, false, Option, none, some, [], ◌∷◌, ◌++◌, ◌==◌, ◌||◌, ◌≤◌, ◌≢◌, ltb, if◌then◌else◌, ◌≡◌,
  refl, All, arith, ℕ, drop, ap, ◌∙◌, Bool-cases, ==_iff, inl, inr,
}
use yggdrasil_sdk_go.Base.Texts.{Text, codes}
use yggdrasil_sdk_go.Rpc.{Error, error_text}
use yggdrasil_sdk_go.Adapter.{escape_quotes, error_envelope}

abbrev cons_char : ℕ → Option (Text × Text) → Option (Text × Text)
cons_char c none = none
cons_char c (some (s, rest)) = some (c ∷ s, rest)

-- Reads a JSON string behind its opening quote: what it holds, and what follows its closing quote.
-- It knows the escapes of the quote and of the backslash.
pub read_string : Text → Option (Text × Text)
read_string [] = none
read_string (c ∷ []) = if c == b'"' then some ([], []) else none
read_string (c ∷ d ∷ s) =
    let escaped = cons_char d (read_string s) in
    let plain = cons_char c (read_string (d ∷ s)) in
    if c == b'"'
    then some ([], d ∷ s)
    else if c == b'\\'
    then (if d == b'"' || d == b'\\' then escaped else none)
    else if ltb c 32
    then none
    else plain

-- Neither a control byte nor a backslash.
abbrev pub IsPlain : ℕ → Type 0
IsPlain c = (32 ≤ c) × (c ≢ b'\\')

read_string_plain :
    (c : ℕ) (s : Text) → IsPlain c → c ≢ b'"' → read_string (c ∷ s) ≡ cons_char c (read_string s)
unfolding read_string
read_string_plain c [] h q = ground arith
read_string_plain c (d ∷ s) h q = ground arith

read_string_escaped :
    (d : ℕ) (s : Text)
    → (d == b'"' || d == b'\\') ≡ true
    → read_string (b'\\' ∷ d ∷ s) ≡ cons_char d (read_string s)
unfolding read_string
read_string_escaped d s h = rw h refl

read_string-quote : (s : Text) → read_string (b'"' ∷ s) ≡ some ([], s)
unfolding read_string
read_string-quote [] = refl
read_string-quote (d ∷ s) = refl

escape_quote : (s t : Text) → escape_quotes (b'"' ∷ s) ++ t ≡ b'\\' ∷ b'"' ∷ (escape_quotes s ++ t)
unfolding escape_quotes
escape_quote s t = refl

escape_other :
    (c : ℕ) (s t : Text)
    → (c == b'"') ≡ false
    → escape_quotes (c ∷ s) ++ t ≡ c ∷ (escape_quotes s ++ t)
unfolding escape_quotes
escape_other c s t h = rw h refl

-- A text with no backslash and no control byte is read back to its end.
read_string-escape :
    (s rest : Text)
    → All IsPlain s
    → read_string (escape_quotes s ++ (b'"' ∷ rest)) ≡ some (s, rest)
read_string-escape [] rest h = (unfold escape_quotes in read_string-quote rest)
read_string-escape (c ∷ s) rest (plain, h) = elim (Bool-cases (c == b'"')) [
  | inl same ↦ rw ((==_iff c b'"').0 same) (
      ap read_string (escape_quote s (b'"' ∷ rest))
      ∙ read_string_escaped b'"' (escape_quotes s ++ b'"' ∷ rest) refl
      ∙ ap (cons_char b'"') (read_string-escape s rest h))
  | inr other ↦
      ap read_string (escape_other c s (b'"' ∷ rest) other)
      ∙ read_string_plain c (escape_quotes s ++ b'"' ∷ rest) plain (ground arith)
      ∙ ap (cons_char c) (read_string-escape s rest h)
]

-- The envelope, behind the ten bytes `{"error":"`, up to its end.
abbrev pub envelope_string : Error → Text
envelope_string err = drop 10 (error_envelope err)

envelope_string_lem :
    (err : Error) → envelope_string err ≡ escape_quotes (error_text err) ++ codes "\"}"
unfolding error_envelope
envelope_string_lem err = refl

-- For an error whose text holds no backslash and no control byte, the string in the envelope reads
-- back as that text, and the closing brace is all that follows it.
pub error_envelope_reads_back :
    (err : Error)
    → All IsPlain (error_text err)
    → read_string (envelope_string err) ≡ some (error_text err, codes "}")
error_envelope_reads_back err h =
    ap read_string (envelope_string_lem err) ∙ read_string-escape (error_text err) (codes "}") h

-- Plain, and not the quote.
abbrev pub IsBare : ℕ → Type 0
IsBare c = IsPlain c × (c ≢ b'"')

escape_backslash_quote :
    (p t rest : Text)
    → All IsBare p
    → read_string (escape_quotes (p ++ (b'\\' ∷ b'"' ∷ t)) ++ rest)
      ≡ some (p ++ (b'\\' ∷ []), escape_quotes t ++ rest)
escape_backslash_quote [] t rest h =
    (unfold escape_quotes in
      (read_string_escaped b'\\' (b'"' ∷ (escape_quotes t ++ rest)) refl
        ∙ ap (cons_char b'\\') (read_string-quote (escape_quotes t ++ rest))))
escape_backslash_quote (c ∷ p) t rest ((plain, bare), h) =
    ap read_string (escape_other c (p ++ (b'\\' ∷ b'"' ∷ t)) rest (ground arith))
    ∙ read_string_plain c (escape_quotes (p ++ (b'\\' ∷ b'"' ∷ t)) ++ rest) plain bare
    ∙ ap (cons_char c) (escape_backslash_quote p t rest h)

-- Where an error's text is free of quotes, backslashes and control bytes up to a backslash and a quote
-- behind it, the string in the envelope ends there: what follows is left outside of it.
pub error_envelope_broken :
    (err : Error) (p t : Text)
    → error_text err ≡ p ++ (b'\\' ∷ b'"' ∷ t)
    → All IsBare p
    → read_string (envelope_string err) ≡ some (p ++ (b'\\' ∷ []), escape_quotes t ++ codes "\"}")
error_envelope_broken err p t e h =
    ap read_string (envelope_string_lem err)
    ∙ ap (λ s. read_string (escape_quotes s ++ codes "\"}")) e
    ∙ escape_backslash_quote p t (codes "\"}") h
