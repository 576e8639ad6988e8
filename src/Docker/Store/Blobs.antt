-- ===== src/Docker/Store/Blobs.antt =====
-- executor/docker/store.go: the blobs of an image layout.
use agentfile.Common.{
  ℕ, ◌≡◌, refl, sym, ap, ◌∙◌, inl, inr, Bool, true, false, not, ◌&&◌, Option, none, some, List, [],
  ◌∷◌, ◌++◌, map, arith, ◌==◌, ==_iff, if◌then◌else◌, Bool-cases, Option-cases,
}
use mathlib.Core.Path.{subst}
use agentfile.Common.Maps.{Assoc, lookup, insert, insert_all, lookup-insert, lookup-insert_all}
use agentfile.Common.Paths.{base, split_slash, cons_head, last_segment}
use agentfile.Common.Texts.{
  Text, codes, text_eq, text_eq_iff, is_empty, contains, index, has_prefix,
}
use agentfile.Common.Lists.{length, drop}
use agentfile.Docker.Client.{OciDescriptor}
use agentfile.Docker.Store.{Store, push, Saved, read_file, read_files, blob_file}

-- A digest of the algorithm sha256; the hexadecimal part is not empty and has no slash.
unfoldable pub is_sha256 : Text → Bool
unfolding has_prefix contains
is_sha256 d =
    has_prefix d (codes "sha256:") && not (is_empty (drop 7 d)) && not (contains b'/' (drop 7 d))

-- The keys of a map of blobs are distinct digests.
unfoldable pub all_sha256 : Assoc (List ℕ) → Bool
unfolding is_sha256 lookup
all_sha256 [] = true
all_sha256 ((d, content) ∷ blobs) =
    is_sha256 d && elim (lookup d blobs) [ none ↦ true | some c ↦ false ] && all_sha256 blobs

has_prefix-drop : (p s : Text) → has_prefix s p ≡ true → s ≡ p ++ drop (length p) s
unfolding has_prefix
has_prefix-drop [] s h = refl
has_prefix-drop (c ∷ p) [] h = ground arith
has_prefix-drop (c ∷ p) (d ∷ s) h = ground (arith, ==_iff d c, has_prefix-drop p s)

split_slash-single : (s : Text) → contains b'/' s ≡ false → split_slash s ≡ s ∷ []
unfolding split_slash contains cons_head
split_slash-single [] h = refl
split_slash-single (c ∷ s) h =
    let rest : split_slash s ≡ s ∷ [] = split_slash-single s (ground arith) in
    let other : (c == b'/') ≡ false = ground arith in rw (other, rest) refl

base-blob :
    (hex : Text)
    → is_empty hex ≡ false
    → contains b'/' hex ≡ false
    → base (codes "blobs/sha256/" ++ hex) ≡ hex
unfolding base last_segment split_slash cons_head
base-blob hex h k = rw (split_slash-single hex k) (rw (h, h, h) refl)

read_file-hex :
    (hex : Text) (content : List ℕ) (r : Saved)
    → is_empty hex ≡ false
    → contains b'/' hex ≡ false
    → read_file (blob_file (codes "sha256:" ++ hex, content)) r
      ≡ record r { saved = insert (codes "sha256:" ++ hex) content r.saved }
unfolding read_file blob_file text_eq has_prefix index base insert
read_file-hex hex content r h k =
    ap (λ x. record r { saved = insert (codes "sha256:" ++ x) content r.saved }) (base-blob hex h k)

read_file-blob :
    (d : Text) (content : List ℕ) (r : Saved)
    → is_sha256 d ≡ true
    → read_file (blob_file (d, content)) r ≡ record r { saved = insert d content r.saved }
unfolding is_sha256
read_file-blob d content r h =
    let split : d ≡ codes "sha256:" ++ drop 7 d =
      has_prefix-drop (codes "sha256:") d (ground arith) in
    subst
      (λ x. read_file (blob_file (x, content)) r ≡ record r { saved = insert x content r.saved })
      (sym split) (read_file-hex (drop 7 d) content r (ground arith) (ground arith))

-- A key that comes first does not come again.
absent_or :
    (k d : Text) (content : List ℕ) (blobs : Assoc (List ℕ)) (o : Option (List ℕ))
    → lookup d blobs ≡ none
    → elim (lookup k blobs) [ some v ↦ some v | none ↦ if text_eq d k then some content else o ]
      ≡ elim (if text_eq d k then some content else lookup k blobs) [ some v ↦ some v | none ↦ o ]
absent_or k d content blobs o h = elim (Bool-cases (text_eq d k)) [
  | inl e ↦
      let same : d ≡ k = ground (arith, text_eq_iff d k) in
      let absent : lookup k blobs ≡ none = cc in rw (absent, e) refl
  | inr e ↦ elim (Option-cases (lookup k blobs)) [
    | inl n ↦ rw (n, e) refl
    | inr (v, n) ↦ rw (e, n) refl
  ]
]

read_files-blob :
    (d : Text) (content : List ℕ) (blobs : Assoc (List ℕ)) (r : Saved)
    → is_sha256 d ≡ true
    → read_files (map blob_file ((d, content) ∷ blobs)) r
      ≡ read_files (map blob_file blobs) (record r { saved = insert d content r.saved })
unfolding read_files
read_files-blob d content blobs r h =
    ap (read_files (map blob_file blobs)) (read_file-blob d content r h)

read_files-lookup :
    (k : Text) (blobs : Assoc (List ℕ)) (r : Saved)
    → all_sha256 blobs ≡ true
    → lookup k (read_files (map blob_file blobs) r).saved
      ≡ elim (lookup k blobs) [ some v ↦ some v | none ↦ lookup k r.saved ]
unfolding all_sha256 lookup read_files
read_files-lookup k [] r h = refl
read_files-lookup k ((d, content) ∷ blobs) r h =
    ap (λ x. lookup k x.saved) (read_files-blob d content blobs r (ground arith))
    ∙ read_files-lookup k blobs (record r { saved = insert d content r.saved }) (ground arith)
    ∙ ap (λ o. elim (lookup k blobs) [ some v ↦ some v | none ↦ o ])
        (lookup-insert d k content r.saved)
    ∙ (absent_or k d content blobs (lookup k r.saved) (ground arith))

pub read_files-index :
    (blobs : Assoc (List ℕ)) (r : Saved)
    → all_sha256 blobs ≡ true
    → (read_files (map blob_file blobs) r).index_data ≡ r.index_data
unfolding all_sha256 read_files
read_files-index [] r h = refl
read_files-index ((d, content) ∷ blobs) r h =
    ap (λ x. x.index_data) (read_files-blob d content blobs r (ground arith))
    ∙ read_files-index blobs (record r { saved = insert d content r.saved }) (ground arith)

abbrev pub from_index : List ℕ → Saved
from_index content = record { index_data = some content; saved = [] }

option_self : (o : Option (List ℕ)) → elim o [ some v ↦ some v | none ↦ none ] ≡ o
option_self none = refl
option_self (some v) = refl

-- The blobs that are read from a layout.
pub blobs-restored :
    (k : Text) (blobs : Assoc (List ℕ)) (content : List ℕ)
    → all_sha256 blobs ≡ true
    → lookup k (insert_all (read_files (map blob_file blobs) (from_index content)).saved [])
      ≡ lookup k blobs
unfolding lookup
blobs-restored k blobs content h =
    lookup-insert_all k (read_files (map blob_file blobs) (from_index content)).saved []
    ∙ option_self (lookup k (read_files (map blob_file blobs) (from_index content)).saved)
    ∙ read_files-lookup k blobs (from_index content) h
    ∙ option_self (lookup k blobs)

insert-all_sha256 :
    (d : Text) (content : List ℕ) (blobs : Assoc (List ℕ))
    → is_sha256 d ≡ true
    → all_sha256 blobs ≡ true
    → all_sha256 (insert d content blobs) ≡ true
unfolding all_sha256 insert lookup
insert-all_sha256 d content [] h k = rw h refl
insert-all_sha256 d content ((j, c) ∷ blobs) h k = ground (
  arith,
  text_eq_iff j d,
  text_eq_iff d j,
  lookup-insert d j content blobs,
  insert-all_sha256 d content blobs,
)

-- A push under a sha256 digest keeps the keys of the blobs distinct sha256 digests.
push-all_sha256 :
    (desc : OciDescriptor) (content : List ℕ) (s : Store)
    → is_sha256 desc.digest ≡ true
    → all_sha256 s.blobs ≡ true
    → all_sha256 (push desc content s).blobs ≡ true
unfolding push
push-all_sha256 desc content s h k = insert-all_sha256 desc.digest content s.blobs h k
