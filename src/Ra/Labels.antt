-- ===== src/Ra/Labels.antt =====
-- A receiver's reading of DNSSL names (RFC 8106, RFC 1035 without compression), and that it reads
-- what `encode_dnssl_names` of crates/dns-stack/src/ra.rs wrote.
use dns_announce.Shared.{
  ℕ, zero, suc, ◌%◌, ◌≤◌, ◌<◌, ◌≡◌, refl, ◌∙◌, Bool, true, false, Option, none, some, List, [], ◌∷◌,
  ◌++◌, arith, ◌==◌, length, All, map, replicate, append_assoc, append-nil,
}
use mathlib.Core.Option
use dns_announce.Net.{Bytes}
use dns_announce.Text.{split_cons, split_dots}
use dns_announce.Ra.{encode_labels, encode_dnssl_names}

-- What the zero byte behind a name's labels does: an empty name is padding.
abbrev end_name : List Bytes → Option (List (List Bytes)) → Option (List (List Bytes))
end_name [] names = names
end_name (l ∷ ls) names = Option.map (◌∷◌ (l ∷ ls)) names

-- The end of the bytes between two labels: fine between names only.
abbrev end_bytes : List Bytes → Option (List (List Bytes))
end_bytes [] = some []
end_bytes (l ∷ ls) = none

-- One name is its labels. The arguments are the number of bytes that the current label still lacks,
-- that label so far, and the labels of the current name.
pub read_names : ℕ → Bytes → List Bytes → Bytes → Option (List (List Bytes))
read_names zero label labels [] = end_bytes labels
read_names zero label labels (zero ∷ bs) = end_name labels (read_names zero [] [] bs)
read_names zero label labels (suc n ∷ bs) = read_names (suc n) [] labels bs
read_names (suc k) label labels [] = none
read_names (suc zero) label labels (b ∷ bs) =
    read_names zero [] (labels ++ ((label ++ (b ∷ [])) ∷ [])) bs
read_names (suc (suc k)) label labels (b ∷ bs) = read_names (suc k) (label ++ (b ∷ [])) labels bs

-- A label that RFC 1035 can express.
abbrev pub IsLabel : Bytes → Type 0
IsLabel l = (0 < length l) × (length l ≤ 63)

abbrev pub IsDomain : Bytes → Type 0
IsDomain d = All IsLabel (split_dots d)

-- The bytes of a label that has begun.
read_label :
    (x : ℕ) (xs label : Bytes) (labels : List Bytes) (rest : Bytes)
    → read_names (suc (length xs)) label labels ((x ∷ xs) ++ rest)
      ≡ read_names zero [] (labels ++ ((label ++ (x ∷ xs)) ∷ [])) rest
unfolding read_names
read_label x [] label labels rest = refl
read_label x (y ∷ ys) label labels rest =
    read_label y ys (label ++ (x ∷ [])) labels rest ∙ rw append_assoc

start_label :
    (n k : ℕ) (labels : List Bytes) (bs : Bytes)
    → n ≡ suc k
    → read_names zero [] labels (n ∷ bs) ≡ read_names (suc k) [] labels bs
unfolding read_names
start_label n k labels bs e = rw e refl

read_labels :
    (ls labels : List Bytes) (rest : Bytes)
    → All IsLabel ls
    → read_names zero [] labels (encode_labels ls ++ rest) ≡ read_names zero [] (labels ++ ls) rest
unfolding encode_labels
read_labels [] labels rest h = rw append-nil refl
read_labels ([] ∷ ls) labels rest h = absurd (omega arith)
read_labels ((x ∷ xs) ∷ ls) labels rest h =
    start_label (length (x ∷ xs) % 256) (length xs) labels _ (omega arith)
    ∙ rw append_assoc (read_label x xs [] labels (encode_labels ls ++ rest))
    ∙ read_labels ls (labels ++ ((x ∷ xs) ∷ [])) rest h.1
    ∙ rw append_assoc

read_padding : (n : ℕ) → read_names zero [] [] (replicate n 0) ≡ some []
unfolding read_names
read_padding zero = refl
read_padding (suc n) = read_padding n

split_cons-cons :
    (c : ℕ) (dot : Bool) (ps : List Bytes)
    → (l : Bytes) × (ls : List Bytes) × (split_cons c dot ps ≡ l ∷ ls)
unfolding split_cons
split_cons-cons c true ps = ([], ps, refl)
split_cons-cons c false [] = (c ∷ [], [], refl)
split_cons-cons c false (p ∷ ps) = (c ∷ p, ps, refl)

-- `str::split` gives a piece at least.
split_dots-cons : (d : Bytes) → (l : Bytes) × (ls : List Bytes) × (split_dots d ≡ l ∷ ls)
unfolding split_dots
split_dots-cons [] = ([], [], refl)
split_dots-cons (c ∷ cs) = split_cons-cons c (c == b'.') (split_dots cs)

read_end :
    (ls : List Bytes) (l : Bytes) (ls' : List Bytes) (bs : Bytes) {names : List (List Bytes)}
    → ls ≡ l ∷ ls'
    → read_names zero [] [] bs ≡ some names
    → read_names zero [] ls (0 ∷ bs) ≡ some (ls ∷ names)
unfolding read_names
read_end ls l ls' bs e h = rw (e, h) refl

-- Reading the encoded names, whatever zero bytes pad them, gives the labels of every domain in
-- order, where each label has 1 to 63 bytes.
pub read_names-encode_dnssl_names :
    (ds : List Bytes) (pad : ℕ)
    → All IsDomain ds
    → read_names zero [] [] (encode_dnssl_names ds ++ replicate pad 0) ≡ some (map split_dots ds)
unfolding encode_dnssl_names
read_names-encode_dnssl_names [] pad h = read_padding pad
read_names-encode_dnssl_names (d ∷ ds) pad h =
    let (l, ls, e) = split_dots-cons d in
    let rest = encode_dnssl_names ds ++ replicate pad 0 in
    rw append_assoc (
      read_labels (split_dots d) [] (0 ∷ rest) h.0
      ∙ read_end (split_dots d) l ls rest e (read_names-encode_dnssl_names ds pad h.1))
