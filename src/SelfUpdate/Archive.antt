-- ===== src/SelfUpdate/Archive.antt =====
-- The paths and the archives of src/self_update.rs: one regular file is extracted, and no other entry.
use update_delivery_system.Prelude.{
  ◌≡◌, refl, String, Bool, true, false, not, ◌&&◌, ◌||◌, Option, none, some, List, [], ◌∷◌, any,
  str_eq, if◌then◌else◌,
}
use update_delivery_system.Prelude.Text.{is_empty, split, strip_prefix, starts_with}
use update_delivery_system.Errors.{UdsError, Result, ok, err, ◌>>=◌, ◌>>◌, bad_request}
use update_delivery_system.Storage.{require}
use update_delivery_system.SelfUpdate.{
  Bytes, Platform, EntryType, regular_file, symlink, hard_link, Entry,
}

-- `Component` of `std::path` on Unix.
pub data Component : Type 0 where
  root_dir cur_dir parent_dir : Component
  normal : String → Component

abbrev later_components : List String → List Component
later_components [] = []
later_components (part ∷ parts) =
    if is_empty part || str_eq part "."
    then later_components parts
    else (if str_eq part ".." then parent_dir else normal part) ∷ later_components parts

abbrev first_components : List String → List Component
first_components [] = []
first_components (part ∷ parts) =
    if str_eq part "." then cur_dir ∷ later_components parts else later_components (part ∷ parts)

-- `Path::components`.
unfoldable pub components : String → List Component
components path =
    if starts_with "/" path
    then root_dir ∷ later_components (split b'/' path)
    else first_components (split b'/' path)

abbrev pub is_normal : Component → Bool
is_normal (normal name) = true
is_normal _ = false

-- `path.is_absolute() || components().any(not normal)`.
unfoldable pub is_unsafe_path : String → Bool
is_unsafe_path path = starts_with "/" path || any (λ part. not (is_normal part)) (components path)

abbrev same_component : Component → Component → Bool
same_component root_dir root_dir = true
same_component cur_dir cur_dir = true
same_component parent_dir parent_dir = true
same_component (normal a) (normal b) = str_eq a b
same_component _ _ = false

abbrev pub same_components : List Component → List Component → Bool
same_components [] [] = true
same_components (a ∷ xs) (b ∷ ys) = same_component a b && same_components xs ys
same_components _ _ = false

-- `==` of two paths.
unfoldable pub same_path : String → String → Bool
same_path a b = same_components (components a) (components b)

abbrev pub is_link : EntryType → Bool
is_link symlink = true
is_link hard_link = true
is_link _ = false

abbrev pub is_file : EntryType → Bool
is_file regular_file = true
is_file _ = false

abbrev corrupt : UdsError
corrupt = bad_request "archive is corrupt"

abbrev pub is_found : Option Bytes → Bool
is_found none = false
is_found (some content) = true

-- The body of the loop of `extract_executable`: what is found after the entry.
unfoldable pub extract_entry : String → Entry → String → Option Bytes → Result (Option Bytes)
extract_entry signed_path entry entry_path found =
    require (not (is_unsafe_path entry_path || is_link entry.entry_type))
      (err (bad_request "archive contains an unsafe path or link"))
    >> (if same_path entry_path signed_path
        then (require (not (not (is_file entry.entry_type) || is_found found))
              (err (bad_request "archive executable is missing, ambiguous, or not a regular file"))
            >> (entry.content >>= λ content. ok (some content)))
        else ok found)

abbrev pub path_of : Option String → Result String
path_of none = err (bad_request "archive path is invalid")
path_of (some path) = ok path

abbrev pub readable : Option Entry → Result Entry
readable none = err corrupt
readable (some entry) = ok entry

unfoldable pub extract_all : String → List (Option Entry) → Option Bytes → Result (Option Bytes)
extract_all signed_path [] found = ok found
extract_all signed_path (e ∷ es) found = readable e >>= λ entry. path_of entry.path >>= λ path.
    extract_entry signed_path entry path found >>= λ found'. extract_all signed_path es found'

abbrev pub extracted : Option Bytes → Result Bytes
extracted none = err (bad_request "archive does not contain the signed executable path")
extracted (some content) = ok content

abbrev pub listed_entries : Option (List (Option Entry)) → Result (List (Option Entry))
listed_entries none = err corrupt
listed_entries (some es) = ok es

module _ (p : Platform) where
  unfoldable pub extract_executable : Bytes → String → Result Bytes
  extract_executable bytes signed_path =
      require (not (is_unsafe_path signed_path))
        (err (bad_request "signed executable path is unsafe"))
      >> (listed_entries (p.list_entries bytes) >>= λ es.
          extract_all signed_path es none >>= λ found. extracted found)

traversal_is_unsafe : is_unsafe_path "../uds" ≡ true
unfolding is_unsafe_path components split strip_prefix is_empty
traversal_is_unsafe = refl

dots_are_skipped : same_path "release/./uds" "release//uds" ≡ true
unfolding same_path components split strip_prefix is_empty
dots_are_skipped = refl
