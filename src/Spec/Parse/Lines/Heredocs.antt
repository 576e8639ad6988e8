-- ===== src/Spec/Parse/Lines/Heredocs.antt =====
-- spec/parse.go, extractHeredoc: the lines of a heredoc.
use mathlib.Core.List.{append-nil, append_assoc}
use agentfile.Common.{
  ℕ, ◌+◌, ◌≡◌, refl, ap, Bool, true, false, none, some, List, [], ◌∷◌, ◌++◌, arith, ◌==◌,
  Bool-cases, inl, inr, ◌⊎◌,
}
use agentfile.Common.Lists.{length, All}
use agentfile.Common.Strings.{trim_space, trim_right}
use agentfile.Common.Texts.{Text, text_eq}
use agentfile.Spec.Parse.Lines.{Heredoc, read_heredoc}

-- The lines, each with its newline.
unfoldable pub unlines : List Text → Text
unlines [] = []
unlines (l ∷ ls) = l ++ (b'\n' ∷ unlines ls)

-- A line ends the heredoc.
abbrev pub closes : Text → Text → Bool
closes marker line = text_eq (trim_space line) marker

-- The body, the line that closes it, and the lines behind.
pub record IsHeredoc (marker : Text) (lines : List Text) (n : ℕ) (h : Heredoc) : Type 0 where
  pub body : List Text
  pub closing : Text
  pub splits : lines ≡ body ++ closing ∷ h.rest
  pub first : All (λ l. closes marker l ≡ false) body
  pub last : closes marker closing ≡ true
  pub content : h.content ≡ trim_right (λ c. c == b'\n') (unlines body)
  pub at : h.at ≡ n + length body + 1

read_heredoc-body :
    (marker : Text) (body rest : List Text) (closing : Text) (n : ℕ) (b : Text)
    → All (λ l. closes marker l ≡ false) body
    → closes marker closing ≡ true
    → read_heredoc marker (body ++ closing ∷ rest) n b
      ≡ some (record {
        content = trim_right (λ c. c == b'\n') (b ++ unlines body);
        rest = rest;
        at = n + length body + 1;
      })
unfolding read_heredoc unlines
read_heredoc-body marker [] rest closing n b h c = ground (arith, append-nil b)
read_heredoc-body marker (l ∷ body) rest closing n b h c = ground (
  arith,
  read_heredoc-body marker body rest closing (n + 1) (b ++ (l ++ (b'\n' ∷ []))),
  append_assoc b (l ++ b'\n' ∷ []) (unlines body),
  append_assoc l (b'\n' ∷ []) (unlines body),
)

-- What is behind the lines that do not close, if anything is.
abbrev Closed : Text → List Text → Type 0
Closed marker lines =
    (body : List Text) × (closing : Text) × (rest : List Text) × (lines ≡ body ++ closing ∷ rest)
    × All (λ l. closes marker l ≡ false) body
    × (closes marker closing ≡ true)

find_closing :
    (marker : Text) (lines : List Text)
    → Closed marker lines ⊎ All (λ l. closes marker l ≡ false) lines
find_closing marker [] = inr tt
find_closing marker (l ∷ ls) = elim (Bool-cases (closes marker l)) [
  | inl c ↦ inl ([], l, ls, refl, tt, c)
  | inr o ↦ elim (find_closing marker ls) [
    | inl (body, closing, rest, e, h, c) ↦
        inl (l ∷ body, closing, rest, ap (λ xs. l ∷ xs) e, (o, h), c)
    | inr h ↦ inr (o, h)
  ]
]

read_heredoc-open :
    (marker : Text) (lines : List Text) (n : ℕ) (b : Text)
    → All (λ l. closes marker l ≡ false) lines
    → read_heredoc marker lines n b ≡ none
unfolding read_heredoc
read_heredoc-open marker [] n b h = refl
read_heredoc-open marker (l ∷ ls) n b h =
    ground (arith, read_heredoc-open marker ls (n + 1) (b ++ (l ++ (b'\n' ∷ []))))

-- Reading a heredoc gives the lines in front of the first line that is the marker between spaces,
-- each with its newline and as it stands, without the newlines at the end; reading goes on behind that line.
-- It fails exactly if no line is the marker.
pub read_heredoc_lem :
    (marker : Text) (lines : List Text) (n : ℕ)
    → ((h : Heredoc) × (read_heredoc marker lines n [] ≡ some h) × IsHeredoc marker lines n h)
      ⊎ ((read_heredoc marker lines n [] ≡ none) × All (λ l. closes marker l ≡ false) lines)
read_heredoc_lem marker lines n = elim (find_closing marker lines) [
  | inr h ↦ inr (read_heredoc-open marker lines n [] h, h)
  | inl (body, closing, rest, e, h, c) ↦ inl (
    record {
      content = trim_right (λ c. c == b'\n') (unlines body);
      rest = rest;
      at = n + length body + 1;
    },
    rw e (read_heredoc-body marker body rest closing n [] h c),
    record {
      body = body;
      closing = closing;
      splits = e;
      first = h;
      last = c;
      content = refl;
      at = refl;
    },
  )
]
