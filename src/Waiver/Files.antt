-- ===== src/Waiver/Files.antt =====
-- `fileMatches`, with the paths of files on Unix, where `ToSlash` changes nothing.
use cross_validate.Base.{String, Bool, true, ◌||◌, if◌then◌else◌, ◌==◌, string_eq}
use cross_validate.Base.FilePaths.{clean, base_name}
use Prim.Native.String

-- `strings.HasSuffix`
has_suffix : String → String → Bool
has_suffix String.[] p = p == ""
has_suffix (String.◌∷◌ c s) p = String.◌∷◌ c s == p || has_suffix s p

-- `fileMatches`
unfoldable pub file_matches : String → String → Bool
unfolding clean base_name has_suffix
file_matches diag_file waiver_file =
    if waiver_file == ""
    then true
    else (let d = clean diag_file in
        let w = clean waiver_file in
        if d == w || has_suffix d (String.◌++◌ "/" w) then true else base_name d == w)
