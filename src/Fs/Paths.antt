-- ===== src/Fs/Paths.antt =====
-- What crates/dns-host-config uses of Rust's `std::path`.
use dns_announce.Shared.{Bool, true, false, [], ◌∷◌, ◌++◌, ◌==◌, if◌then◌else◌}
use dns_announce.Text.{Text}
use dns_announce.Fs.{Node, absent, broken, file}

-- Empty, or with a slash at its end.
unfoldable pub ends_in_slash : Text → Bool
ends_in_slash [] = true
ends_in_slash (c ∷ []) = c == b'/'
ends_in_slash (c ∷ d ∷ rest) = ends_in_slash (d ∷ rest)

unfoldable pub is_absolute : Text → Bool
is_absolute [] = false
is_absolute (c ∷ cs) = c == b'/'

-- `Path::join`: an absolute path takes the place of the directory.
unfoldable pub join : Text → Text → Text
join dir name =
    if is_absolute name
    then name
    else if ends_in_slash dir
    then dir ++ name
    else dir ++ (b'/' ∷ name)

-- `Path::is_file`
unfoldable pub is_file : Node → Bool
is_file absent = false
is_file broken = false
is_file (file bytes) = true
