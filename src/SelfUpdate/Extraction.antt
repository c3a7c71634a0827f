-- ===== src/SelfUpdate/Extraction.antt =====
-- What `extract_executable` of src/self_update.rs has seen of an archive when it succeeds.
use update_delivery_system.Prelude.{
  ◌≡◌, ◌≢◌, refl, ap, ◌∙◌, ◌⊎◌, inl, inr, String, Bool, true, false, not, ◌||◌, Option, none, some,
  List, [], ◌∷◌, ◌++◌, map, All, any, arith, if◌then◌else◌,
}
use update_delivery_system.Prelude.Text.{starts_with}
use update_delivery_system.Errors.{ok, err, ◌>>=◌, ◌>>◌, bad_request}
use update_delivery_system.Errors.Outcomes.{>>=-succeeds, >>-succeeds, true_of_ok}
use update_delivery_system.SelfUpdate.{
  Bytes, Platform, EntryType, regular_file, symlink, hard_link, other, Entry,
}
use update_delivery_system.SelfUpdate.Archive.{
  Component, root_dir, cur_dir, parent_dir, normal, components, is_normal, is_unsafe_path,
  same_path, is_link, is_file, is_found, readable, path_of, extract_entry, extract_all,
  listed_entries, extracted, extract_executable,
}

-- A path below the directory of extraction, with no step upwards.
abbrev pub IsBelow : String → Type 0
IsBelow path =
    (starts_with "/" path ≡ false)
    × All (λ part. (name : String) × (part ≡ normal name)) (components path)

normal_parts :
    (parts : List Component)
    → any (λ part. not (is_normal part)) parts ≡ false
    → All (λ part. (name : String) × (part ≡ normal name)) parts
normal_parts [] h = tt
normal_parts (root_dir ∷ parts) h = cc
normal_parts (cur_dir ∷ parts) h = cc
normal_parts (parent_dir ∷ parts) h = cc
normal_parts (normal name ∷ parts) h = ((name, refl), normal_parts parts h)

IsBelow-path : (path : String) → is_unsafe_path path ≡ false → IsBelow path
unfolding is_unsafe_path
IsBelow-path path h = (ground arith, normal_parts (components path) (ground arith))

-- An entry that may stand in an archive, at a path that the program names, or at another.
abbrev pub IsAllowed : Bool → String → Entry → Type 0
IsAllowed here signed_path entry =
    (path : String) × (entry.path ≡ some path)
    × IsBelow path
    × (entry.entry_type ≢ symlink)
    × (entry.entry_type ≢ hard_link)
    × (same_path path signed_path ≡ here)

not_link : (t : EntryType) → is_link t ≡ false → (t ≢ symlink) × (t ≢ hard_link)
not_link regular_file h = (λ e. cc, λ e. cc)
not_link symlink h = cc
not_link hard_link h = cc
not_link other h = (λ e. cc, λ e. cc)

regular_of_file : (t : EntryType) → is_file t ≡ true → t ≡ regular_file
regular_of_file regular_file h = refl
regular_of_file symlink h = cc
regular_of_file hard_link h = cc
regular_of_file other h = cc

module _ (signed_path : String) where
  -- One round of the loop that goes on to the entries `es` and to the result `r`.
  abbrev Round : Entry → List (Option Entry) → Option Bytes → Option Bytes → Type 0
  Round entry es found r =
      (IsAllowed true signed_path entry
        × (entry.entry_type ≡ regular_file)
        × (found ≡ none)
        × ((content : Bytes) × (entry.content ≡ ok content)
            × (extract_all signed_path es (some content) ≡ ok r)))
      ⊎ (IsAllowed false signed_path entry × (extract_all signed_path es found ≡ ok r))

  readable-eq-ok : (e : Option Entry) {entry : Entry} → readable e ≡ ok entry → e ≡ some entry
  readable-eq-ok none h = cc
  readable-eq-ok (some a) h = cc

  path_of-eq-ok : (o : Option String) {path : String} → path_of o ≡ ok path → o ≡ some path
  path_of-eq-ok none h = cc
  path_of-eq-ok (some a) h = cc

  not_found : (found : Option Bytes) → is_found found ≡ false → found ≡ none
  not_found none h = refl
  not_found (some c) h = cc

  extract_entry-Round :
      (entry : Entry) (path : String) (es : List (Option Entry)) (found found' r : Option Bytes)
      → entry.path ≡ some path
      → extract_entry signed_path entry path found ≡ ok found'
      → extract_all signed_path es found' ≡ ok r
      → Round entry es found r
  unfolding extract_entry
  extract_entry-Round entry path es found found' r e h k =
      let (a, g) = >>-succeeds _ _ h in
      let safe : not (is_unsafe_path path || is_link entry.entry_type) ≡ true = true_of_ok _ _ a in
      let links : (entry.entry_type ≢ symlink) × (entry.entry_type ≢ hard_link) =
        not_link entry.entry_type (ground arith) in
      let below = IsBelow-path path (ground arith) in
      go (same_path path signed_path) refl g below links
    where
      go :
          (t : Bool)
          → same_path path signed_path ≡ t
          → (if t
              then ((if not (not (is_file entry.entry_type) || is_found found)
                    then ok tt
                    else err (
                        bad_request
                          "archive executable is missing, ambiguous, or not a regular file"))
                  >> (entry.content >>= λ content. ok (some content)))
              else ok found)
            ≡ ok found'
          → IsBelow path
          → (entry.entry_type ≢ symlink) × (entry.entry_type ≢ hard_link)
          → Round entry es found r
      go false q g b l =
          let same : extract_all signed_path es found ≡ extract_all signed_path es found' =
            ap (extract_all signed_path es) (cc g) in
          inr ((path, e, b, l.0, l.1, q), same ∙ k)
      go true q g b l =
          let (s, f) = >>-succeeds _ _ g in
          let (content, c, d) = >>=-succeeds entry.content _ f in
          let test = true_of_ok _ _ s in
          inl (
            (path, e, b, l.0, l.1, q),
            regular_of_file entry.entry_type (ground arith),
            not_found found (ground arith),
            (content, c, ap (extract_all signed_path es) (cc d) ∙ k),
          )

  extract_all-Round :
      (e : Option Entry) (es : List (Option Entry)) (found r : Option Bytes)
      → extract_all signed_path (e ∷ es) found ≡ ok r
      → (entry : Entry) × (e ≡ some entry) × Round entry es found r
  unfolding extract_all
  extract_all-Round e es found r h =
      let (entry, a, g) = >>=-succeeds (readable e) _ h in
      let (path, b, f) = >>=-succeeds (path_of entry.path) _ g in
      let (found', c, d) = >>=-succeeds (extract_entry signed_path entry path found) _ f in
      (
        entry,
        readable-eq-ok e a,
        extract_entry-Round entry path es found found' r (path_of-eq-ok entry.path b) c d,
      )

  -- After the executable is found, no other entry stands at its path.
  extract_all-found :
      (es : List (Option Entry)) (content : Bytes) (r : Option Bytes)
      → extract_all signed_path es (some content) ≡ ok r
      → (r ≡ some content)
        × ((entries : List Entry) × (es ≡ map some entries)
            × All (IsAllowed false signed_path) entries)
  extract_all-found [] content r h = unfold extract_all in (cc h, ([], refl, tt))
  extract_all-found (e ∷ es) content r h =
      go (λ k. extract_all-found es content r k) (extract_all-Round e es (some content) r h)
    where
      go :
          (extract_all signed_path es (some content) ≡ ok r
            → (r ≡ some content)
              × ((entries : List Entry) × (es ≡ map some entries)
                  × All (IsAllowed false signed_path) entries))
          → (entry : Entry) × (e ≡ some entry) × Round entry es (some content) r
          → (r ≡ some content)
            × ((entries : List Entry) × (e ∷ es ≡ map some entries)
                × All (IsAllowed false signed_path) entries)
      go ih (entry, q, inl (a, b, c, d)) = cc
      go ih (entry, q, inr (a, k)) =
          let (s, (entries, f, g)) = ih k in (s, (entry ∷ entries, cc, (a, g)))

  abbrev pub HoldsOne : List (Option Entry) → Bytes → Type 0
  HoldsOne es content =
      (before : List Entry) × (executable : Entry) × (after : List Entry) × (es
        ≡ map some (before ++ executable ∷ after))
      × IsAllowed true signed_path executable
      × (executable.entry_type ≡ regular_file)
      × (executable.content ≡ ok content)
      × All (IsAllowed false signed_path) before
      × All (IsAllowed false signed_path) after

  extract_all-HoldsOne :
      (es : List (Option Entry)) (content : Bytes)
      → extract_all signed_path es none ≡ ok (some content)
      → HoldsOne es content
  extract_all-HoldsOne [] content h = unfold extract_all in cc h
  extract_all-HoldsOne (e ∷ es) content h =
      go (λ k. extract_all-HoldsOne es content k) (extract_all-Round e es none (some content) h)
    where
      go :
          (extract_all signed_path es none ≡ ok (some content) → HoldsOne es content)
          → (entry : Entry) × (e ≡ some entry) × Round entry es none (some content)
          → HoldsOne (e ∷ es) content
      go ih (entry, q, inr (a, k)) =
          let (before, executable, after, f, g, t, c, x, y) = ih k in
          (entry ∷ before, executable, after, cc, g, t, c, (a, x), y)
      go ih (entry, q, inl (a, t, n, (found, c, k))) =
          let (s, (entries, f, g)) = extract_all-found es found (some content) k in
          ([], entry, entries, cc, a, t, cc, tt, g)

-- An executable is extracted only from an archive that can be read whole, in which exactly one entry
-- stands at the signed path, a regular file with this content; the signed path and the path of
-- every entry lead to a place below the directory, and no entry is a link.
pub extract_executable_seen :
    (p : Platform) (bytes : Bytes) (signed_path : String) (content : Bytes)
    → extract_executable p bytes signed_path ≡ ok content
    → IsBelow signed_path
      × ((es : List (Option Entry)) × (p.list_entries bytes ≡ some es)
          × HoldsOne signed_path es content)
unfolding extract_executable
extract_executable_seen p bytes signed_path content h =
    let (a, g) = >>-succeeds _ _ h in
    let (es, b, f) = >>=-succeeds (listed_entries (p.list_entries bytes)) _ g in
    let (found, c, d) = >>=-succeeds (extract_all signed_path es none) _ f in
    let safe = true_of_ok _ _ a in
    (
      IsBelow-path signed_path (ground arith),
      (
        es,
        listed (p.list_entries bytes) b,
        extract_all-HoldsOne signed_path es content (c ∙ ap ok (present found d)),
      ),
    )
  where
    listed :
        (o : Option (List (Option Entry))) {es : List (Option Entry)}
        → listed_entries o ≡ ok es
        → o ≡ some es
    listed none e = cc
    listed (some a) e = cc

    present : (o : Option Bytes) → extracted o ≡ ok content → o ≡ some content
    present none e = cc
    present (some a) e = cc
