-- ===== src/Templates.antt =====
-- internal/platform/mail/mail.go and templates.go: a message and how it is rendered. The parsed
-- templates, which html/template and text/template execute, are parameters; reading them from the
-- binary is left out.
use marketplace.Base.{
  ℕ, ◌==◌, Option, none, some, List, [], ◌∷◌, if◌then◌else◌, Bytes, same_bytes, Outcome, ok, err,
  is_set, ◌≡◌, refl, ◌++◌, inl, inr, Bool-cases, arith,
}
use marketplace.Credentials.{trim_space}

-- Message
pub record Message : Type 0 where
  pub template : Bytes
  pub language : Bytes
  pub to : Bytes
  pub from : Bytes
  pub marketplace : Bytes
  pub variables : List (Bytes × Bytes)

-- Rendered
pub record Rendered : Type 0 where
  pub message : Message
  pub subject : Bytes
  pub text : Bytes
  pub html : Bytes

-- A parsed template: what it writes, or the error of its execution.
abbrev pub Template : Type 0
Template = List (Bytes × Bytes) → Option Bytes

-- Templates: a part by its name and its language.
pub record Templates : Type 0 where
  pub text : Bytes → Bytes → Option Template
  pub html : Bytes → Bytes → Option Template

pub data RenderError : Type 0 where
  no_template text_failed no_body no_subject html_failed : RenderError

abbrev pub newline : ℕ
newline = 10

-- strings.Cut(rendered, "\n")
unfoldable pub cut_line : Bytes → Option (Bytes × Bytes)
cut_line [] = none
cut_line (c ∷ cs) =
    let rest = cut_line cs in
    if c == newline
    then some ([], cs)
    else elim rest [ none ↦ none | some (line, rest) ↦ some (c ∷ line, rest) ]

-- strings.TrimLeft(rest, "\n")
unfoldable pub trim_newlines : Bytes → Bytes
trim_newlines [] = []
trim_newlines (c ∷ cs) = if c == newline then trim_newlines cs else c ∷ cs

-- strings.CutPrefix
unfoldable pub cut_prefix : Bytes → Bytes → Option Bytes
cut_prefix [] text = some text
cut_prefix (p ∷ ps) [] = none
cut_prefix (p ∷ ps) (c ∷ cs) = let rest = cut_prefix ps cs in if p == c then rest else none

-- What is left of a text is what follows the prefix.
pub cut_prefix_sound :
    (prefix text rest : Bytes) → cut_prefix prefix text ≡ some rest → text ≡ prefix ++ rest
unfolding cut_prefix
cut_prefix_sound [] text rest h = cc
cut_prefix_sound (p ∷ ps) [] rest h = absurd cc
cut_prefix_sound (p ∷ ps) (c ∷ cs) rest h = elim (Bool-cases (p == c)) [
  | inr other ↦ absurd (ground arith)
  | inl same ↦
      let e : p ≡ c = ground arith in let rest_of = cut_prefix_sound ps cs rest (ground arith) in cc
]

pub cut_prefix-append : (prefix rest : Bytes) → cut_prefix prefix (prefix ++ rest) ≡ some rest
unfolding cut_prefix
cut_prefix-append [] rest = refl
cut_prefix-append (p ∷ ps) rest = ground (arith, cut_prefix-append ps rest)

-- subjectPrefix: "Subject: "
abbrev pub subject_prefix : Bytes
subject_prefix = b'S' ∷ b'u' ∷ b'b' ∷ b'j' ∷ b'e' ∷ b'c' ∷ b't' ∷ b':' ∷ b' ' ∷ []

abbrev pub subject_of : Option Bytes → Outcome RenderError Bytes
subject_of none = err no_subject
subject_of (some []) = err no_subject
subject_of (some (c ∷ cs)) = ok (c ∷ cs)

abbrev pub split_lines : Option (Bytes × Bytes) → Outcome RenderError (Bytes × Bytes)
split_lines none = err no_body
split_lines (some (line, rest)) = elim (subject_of (cut_prefix subject_prefix (trim_space line))) [
  | err e ↦ err e
  | ok subject ↦ ok (subject, trim_newlines rest)
]

-- split
unfoldable pub split : Bytes → Outcome RenderError (Bytes × Bytes)
split rendered = split_lines (cut_line rendered)

-- An assignment to a map.
unfoldable pub put : Bytes → Bytes → List (Bytes × Bytes) → List (Bytes × Bytes)
put name value [] = (name, value) ∷ []
put name value ((n, v) ∷ rest) =
    let others = put name value rest in
    if same_bytes n name then (n, value) ∷ rest else (n, v) ∷ others

unfoldable pub with_variables : List (Bytes × Bytes) → List (Bytes × Bytes) → List (Bytes × Bytes)
with_variables [] variables = variables
with_variables ((name, value) ∷ given) variables = with_variables given (put name value variables)

-- "From" and "Language"
abbrev pub shared_variables : Message → Bytes → List (Bytes × Bytes)
shared_variables message language =
    (b'F' ∷ b'r' ∷ b'o' ∷ b'm' ∷ [], message.from)
    ∷ (b'L' ∷ b'a' ∷ b'n' ∷ b'g' ∷ b'u' ∷ b'a' ∷ b'g' ∷ b'e' ∷ [], language)
    ∷ []

-- What the text of a template and its HTML make of a message.
abbrev pub render_html :
    Message
    → Bytes
    → Outcome RenderError (Bytes × Bytes)
    → Option Bytes
    → Outcome RenderError Rendered
render_html message language (err e) html = err e
render_html message language (ok (subject, text)) none = err html_failed
render_html message language (ok (subject, text)) (some markup) = ok (record {
  message = record message { language = language };
  subject = subject;
  text = text;
  html = markup;
})

abbrev pub render_text :
    Message → Bytes → Option Bytes → Option Bytes → Outcome RenderError Rendered
render_text message language none html = err text_failed
render_text message language (some body) html = render_html message language (split body) html

abbrev pub render_parts :
    Message → Bytes → Option Template → Option Template → Outcome RenderError Rendered
render_parts message language none html = err no_template
render_parts message language (some text) none = err no_template
render_parts message language (some text) (some html) =
    let variables = with_variables message.variables (shared_variables message language) in
    render_text message language (text variables) (html variables)

-- The language a message is rendered in.
abbrev pub rendered_language : Templates → Message → Bytes → Bytes
rendered_language t message fallback =
    if is_set (t.text message.template message.language) then message.language else fallback

-- (*Templates).Render
unfoldable pub render : Templates → Bytes → Message → Outcome RenderError Rendered
render t fallback message =
    let language = rendered_language t message fallback in
    render_parts message language (t.text message.template language)
      (t.html message.template language)
