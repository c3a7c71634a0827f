-- ===== src/Storage/Offers.antt =====
-- The candidates of `update_for` of src/storage.rs.
use update_delivery_system.Prelude.{
  ◌≡◌, refl, ap, ◌⊎◌, inl, inr, String, Bool, true, false, not, ◌||◌, Option, none, some, is_some,
  List, [], ◌∷◌, ◌++◌, All, All-map, arith, if◌then◌else◌,
}
use update_delivery_system.Prelude.BTreeMap.{get}
use update_delivery_system.Prelude.BTreeMap.Keys.{text_ord}
use update_delivery_system.Errors.{Result, ok, ◌>>=◌}
use update_delivery_system.Errors.Outcomes.{OnOk, OnOk-bind, OnOk-map, OnOk-at}
use update_delivery_system.Models.{PlatformArtifact, ReleaseManifest}
use update_delivery_system.Storage.{Libraries, parse_version}
use update_delivery_system.Storage.Updates.{Candidate, is_skipped, newer_candidates, candidates}

-- An item of a list.
abbrev pub IsAmong : {A : Type 0} → A → List A → Type 0
IsAmong {A} x xs = (before : List A) × (after : List A) × (xs ≡ before ++ x ∷ after)

IsAmong-cons : {A : Type 0} (x y : A) (xs : List A) → IsAmong x xs → IsAmong x (y ∷ xs)
IsAmong-cons x y xs (before, after, e) = (y ∷ before, after, ap (λ l. y ∷ l) e)

module _ (lib : Libraries) (platform_key : String) where
  -- A release that a client at version `v` or above is not offered.
  abbrev pub AtMost : lib.Version → ReleaseManifest → Type 0
  AtMost v m =
      (m.withdrawn ≡ true)
      ⊎ (get platform_key m.platforms ≡ none)
      ⊎ ((w : lib.Version) × (parse_version lib m.version ≡ ok w) × (lib.version_lt v w ≡ false))

  skipped :
      (v : lib.Version) (m : ReleaseManifest) → is_skipped lib platform_key m ≡ true → AtMost v m
  skipped v m k = go m.withdrawn refl (get platform_key m.platforms) refl k
    where
      go :
          (w : Bool)
          → m.withdrawn ≡ w
          → (o : Option PlatformArtifact) → get platform_key m.platforms ≡ o
          → (w || not (is_some o)) ≡ true
          → AtMost v m
      go true e o i k = inl e
      go false e none i k = inr (inl i)
      go false e (some a) i k = cc

  not_withdrawn :
      (m : ReleaseManifest) → is_skipped lib platform_key m ≡ false → m.withdrawn ≡ false
  not_withdrawn m k = ground arith

  -- A candidate for a client at version `current`.
  abbrev pub IsCandidate : lib.Version → List ReleaseManifest → Candidate lib → Type 0
  IsCandidate current releases c =
      IsAmong c.1 releases
      × (c.1.withdrawn ≡ false)
      × (parse_version lib c.1.version ≡ ok c.0)
      × (lib.version_lt current c.0 ≡ true)

  abbrev pub Covers : lib.Version → List ReleaseManifest → List (Candidate lib) → Type 0
  Covers current releases found =
      (v : lib.Version)
      → ((w : lib.Version) → lib.version_lt current w ≡ false → lib.version_lt v w ≡ false)
      → All (λ c. lib.version_lt v c.0 ≡ false) found
      → All (AtMost v) releases

  abbrev pub AreCandidates : lib.Version → List ReleaseManifest → List (Candidate lib) → Type 0
  AreCandidates current releases found =
      All (IsCandidate current releases) found × Covers current releases found

  earlier :
      (current : lib.Version) (m : ReleaseManifest) (releases : List ReleaseManifest)
      (found : List (Candidate lib))
      → All (IsCandidate current releases) found
      → All (IsCandidate current (m ∷ releases)) found
  earlier current m releases found h =
      All-map (IsCandidate current releases) (IsCandidate current (m ∷ releases)) found
        (λ c p. (IsAmong-cons c.1 m releases p.0, p.1, p.2, p.3)) h

  newer-AreCandidates :
      (current parsed : lib.Version) (m : ReleaseManifest) (releases : List ReleaseManifest)
      (found : List (Candidate lib)) (t : Bool)
      → lib.version_lt current parsed ≡ t
      → is_skipped lib platform_key m ≡ false
      → parse_version lib m.version ≡ ok parsed
      → AreCandidates current releases found
      → AreCandidates current (m ∷ releases) (if t then (parsed, m) ∷ found else found)
  newer-AreCandidates current parsed m releases found true e k p (c, covers) = (
    ((([], releases, refl), not_withdrawn m k, p, e), earlier current m releases found c),
    λ v below h. (inr (inr (parsed, p, h.0)), covers v below h.1),
  )
  newer-AreCandidates current parsed m releases found false e k p (c, covers) = (
    earlier current m releases found c,
    λ v below h. (inr (inr (parsed, p, below parsed e)), covers v below h),
  )

  pub candidates-AreCandidates :
      (current : lib.Version) (releases : List ReleaseManifest)
      → OnOk (AreCandidates current releases) (candidates lib platform_key current releases)
  unfolding candidates
  candidates-AreCandidates current [] = (tt, λ v below h. tt)
  candidates-AreCandidates current (m ∷ releases) =
      go (candidates-AreCandidates current releases) (is_skipped lib platform_key m) refl
    where
      rest : Result (List (Candidate lib))
      rest = candidates lib platform_key current releases

      go :
          OnOk (AreCandidates current releases) rest
          → (t : Bool) → is_skipped lib platform_key m ≡ t
          → OnOk (AreCandidates current (m ∷ releases)) (
              if t
              then rest
              else (parse_version lib m.version >>= λ parsed.
                  rest >>= λ found. ok (newer_candidates lib current parsed m found)))
      go h true k =
          OnOk-map (AreCandidates current releases) (AreCandidates current (m ∷ releases)) rest
            (λ found c.
              (earlier current m releases found c.0, λ v below b. (skipped v m k, c.1 v below b)))
            h
      go h false k =
          OnOk-bind (AreCandidates current (m ∷ releases)) (parse_version lib m.version) _
            (λ parsed p. OnOk-bind (AreCandidates current (m ∷ releases)) rest _ (λ found e.
              newer-AreCandidates current parsed m releases found _ refl k p
                (OnOk-at (AreCandidates current releases) rest found h e)))
