-- ===== src/Fs.antt =====
-- The part of Rust's `std::fs` that crates/dns-host-config uses. A path may name no file, a file, or
-- something that every access fails on (a directory, say); writes and removals may be refused path by
-- path. A failed write leaves the file as it was.
pub mod Paths
use dns_announce.Shared.{
  ◌≡◌, ◌∙◌, refl, ap, Bool, true, false, Option, none, some, if◌then◌else◌, seq_eq, seq_eq_iff,
  seq_eq_refl, ◌≢◌, Bool-cases, inl, inr,
}
use dns_announce.Net.{Bytes}
use dns_announce.Text.{Text}
use dns_announce.Text.Utf8.{decode}

pub data Node : Type 0 where
  absent broken : Node
  file : Bytes → Node

pub record Fs : Type 0 where
  pub node : Text → Node
  pub writable : Text → Bool

-- `io::ErrorKind`
pub data ErrorKind : Type 0 where
  not_found other_error : ErrorKind

pub data IoResult {ℓ} (A : Type ℓ) : Type ℓ where
  ok : A → IoResult A
  err : ErrorKind → IoResult A

unfoldable pub put : Fs → Text → Node → Fs
put fs path n = record fs { node = λ q. if seq_eq q path then n else fs.node q }

unfoldable pub read_node : Node → IoResult Bytes
read_node absent = err not_found
read_node broken = err other_error
read_node (file bytes) = ok bytes

-- `fs::read`
abbrev pub read : Fs → Text → IoResult Bytes
read fs path = read_node (fs.node path)

unfoldable pub text_of : IoResult Bytes → Option Text
text_of (ok bytes) = decode bytes
text_of (err e) = none

-- `fs::read_to_string(path).ok()`
unfoldable pub read_to_string : Fs → Text → Option Text
unfolding text_of
read_to_string fs path = text_of (read fs path)

-- What `fs::read_to_string` returns; bytes that are not UTF-8 are an error.
unfoldable pub text_or_error : Option Text → IoResult Text
text_or_error (some s) = ok s
text_or_error none = err other_error

unfoldable pub read_text_node : IoResult Bytes → IoResult Text
read_text_node (ok bytes) = text_or_error (decode bytes)
read_text_node (err e) = err e

abbrev pub read_text : Fs → Text → IoResult Text
read_text fs path = read_text_node (read fs path)

unfoldable pub exists_node : Node → Bool
exists_node absent = false
exists_node broken = true
exists_node (file bytes) = true

-- `Path::exists`
abbrev pub exists : Fs → Text → Bool
exists fs path = exists_node (fs.node path)

unfoldable pub write_node : Fs → Text → Bytes → Node → Fs × IoResult (Unit {0})
write_node fs path bytes broken = (fs, err other_error)
write_node fs path bytes absent = (put fs path (file bytes), ok tt)
write_node fs path bytes (file old) = (put fs path (file bytes), ok tt)

-- `fs::write`
unfoldable pub write : Fs → Text → Bytes → Fs × IoResult (Unit {0})
unfolding write_node
write fs path bytes =
    if fs.writable path then write_node fs path bytes (fs.node path) else (fs, err other_error)

unfoldable pub remove_node : Fs → Text → Node → Fs × IoResult (Unit {0})
remove_node fs path absent = (fs, err not_found)
remove_node fs path broken = (fs, err other_error)
remove_node fs path (file bytes) =
    if fs.writable path then (put fs path absent, ok tt) else (fs, err other_error)

-- `fs::remove_file`
unfoldable pub remove_file : Fs → Text → Fs × IoResult (Unit {0})
unfolding remove_node
remove_file fs path = remove_node fs path (fs.node path)

-- A file holds what was put there, and other paths what they held.
pub node-put : (fs : Fs) (path : Text) (n : Node) → (put fs path n).node path ≡ n
unfolding put
node-put fs path n = rw (seq_eq_refl path) refl

pub node-put_ne :
    (fs : Fs) (path other : Text) (n : Node)
    → other ≢ path
    → (put fs path n).node other ≡ fs.node other
unfolding put
node-put_ne fs path other n h = elim (Bool-cases (seq_eq other path)) [
  | inl same ↦ absurd (h ((seq_eq_iff other path).0 same))
  | inr differ ↦ rw differ refl
]

pub read_to_string-file :
    (fs : Fs) (path : Text) (bytes : Bytes)
    → fs.node path ≡ file bytes
    → read_to_string fs path ≡ decode bytes
unfolding read_to_string text_of read_node
read_to_string-file fs path bytes h = ap (λ (n : Node). text_of (read_node n)) h

-- A write to a path where one may write leaves the bytes there.
write_node-put :
    (fs : Fs) (path : Text) (bytes : Bytes) (n : Node)
    → n ≢ broken
    → write_node fs path bytes n ≡ (put fs path (file bytes), ok tt)
unfolding write_node
write_node-put fs path bytes absent h = refl
write_node-put fs path bytes broken h = absurd (h refl)
write_node-put fs path bytes (file old) h = refl

pub write-put :
    (fs : Fs) (path : Text) (bytes : Bytes)
    → fs.writable path ≡ true
    → fs.node path ≢ broken
    → write fs path bytes ≡ (put fs path (file bytes), ok tt)
unfolding write
write-put fs path bytes h k = rw (h, write_node-put fs path bytes (fs.node path) k) refl

-- So does a removal leave nothing.
pub remove_file-put :
    (fs : Fs) (path : Text) (bytes : Bytes)
    → fs.writable path ≡ true
    → fs.node path ≡ file bytes
    → remove_file fs path ≡ (put fs path absent, ok tt)
unfolding remove_file remove_node
remove_file-put fs path bytes h e = ap (remove_node fs path) e ∙ rw h refl

-- A file is not a directory.
pub file-ne_broken :
    (fs : Fs) (path : Text) (bytes : Bytes) → fs.node path ≡ file bytes → fs.node path ≢ broken
file-ne_broken fs path bytes e b = cc
