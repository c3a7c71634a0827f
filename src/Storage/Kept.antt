-- ===== src/Storage/Kept.antt =====
-- What it means that a change of the storage of src/storage.rs keeps the releases.
use mathlib.Core.Path.{subst⁻¹}
use update_delivery_system.Prelude.{
  ◌≡◌, refl, ap, ◌∙◌, ◌⊎◌, inl, inr, String, Bool, true, false, ◌&&◌, Option, none, some, is_some,
  unwrap_or, [], if◌then◌else◌, str_eq, eq_iff,
}
use update_delivery_system.Prelude.Text.{trim, trim_start_matches}
use update_delivery_system.Prelude.BTreeMap.{get, insert, get-insert}
use update_delivery_system.Prelude.BTreeMap.Keys.{text_ord}
use update_delivery_system.Errors.{UdsError}
use update_delivery_system.Models.{ReleaseManifest}
use update_delivery_system.Storage.{Libraries, Storage}
use update_delivery_system.Storage.Repository.{channel_dir, save_manifest, publish}

-- The text of a version begins with a digit, has no white space, and parses to the version.
pub record ShowParses (lib : Libraries) : Type 0 where
  pub parses :
      (v : lib.Version) → lib.parse (trim_start_matches 118 (trim (lib.show_version v))) ≡ some v

abbrev pub release_at : String → String → Storage → Option ReleaseManifest
release_at channel version s = get version (channel_dir channel s)

-- A release with the same artifacts, which is withdrawn if the first was.
abbrev pub IsKept : ReleaseManifest → Option ReleaseManifest → Type 0
IsKept m none = ⊥
IsKept m (some m') =
    (m'.version ≡ m.version)
    × (m'.platforms ≡ m.platforms)
    × ((m'.withdrawn ≡ m.withdrawn) ⊎ (m'.withdrawn ≡ true))

pub release_at-save_manifest :
    (channel version c v : String) (m : ReleaseManifest) (s : Storage)
    → release_at c v (save_manifest channel version m s)
      ≡ (if str_eq channel c && str_eq version v then some m else release_at c v s)
unfolding save_manifest get
release_at-save_manifest channel version c v m s =
    ap (λ o. get v (unwrap_or o []))
      (get-insert channel c (insert version m (channel_dir channel s)) s.releases)
    ∙ go (str_eq channel c) refl
  where
    go :
        (b : Bool)
        → str_eq channel c ≡ b
        → get v (
            unwrap_or
              (if b then some (insert version m (channel_dir channel s)) else get c s.releases)
              [])
          ≡ (if b && str_eq version v then some m else release_at c v s)
    go true e =
        get-insert version v m (channel_dir channel s)
        ∙ ap (λ x. if str_eq version v then some m else get v (channel_dir x s))
            ((eq_iff channel c).0 e)
    go false e = refl

-- A step keeps every release.
abbrev pub Keeps : Storage → Storage → Type 0
Keeps s s' =
    (c v : String) (m : ReleaseManifest) → release_at c v s ≡ some m → IsKept m (release_at c v s')

pub same-Keeps : (s : Storage) → Keeps s s
same-Keeps s c v m e = subst⁻¹ (IsKept m) e (refl, refl, inl refl)

IsKept-trans :
    (m m' : ReleaseManifest) (o : Option ReleaseManifest)
    → IsKept m (some m')
    → IsKept m' o
    → IsKept m o
IsKept-trans m m' none h k = k
IsKept-trans m m' (some m'') (v, p, w) (v', p', w') = (v' ∙ v, p' ∙ p, withdrawn w w')
  where
    withdrawn :
        (m'.withdrawn ≡ m.withdrawn) ⊎ (m'.withdrawn ≡ true)
        → (m''.withdrawn ≡ m'.withdrawn) ⊎ (m''.withdrawn ≡ true)
        → (m''.withdrawn ≡ m.withdrawn) ⊎ (m''.withdrawn ≡ true)
    withdrawn w (inr e) = inr e
    withdrawn (inl e) (inl e') = inl (e' ∙ e)
    withdrawn (inr e) (inl e') = inr (e' ∙ e)

pub trans-Keeps : (a b c : Storage) → Keeps a b → Keeps b c → Keeps a c
trans-Keeps a b c h k ch v m e = go (release_at ch v b) refl (h ch v m e)
  where
    go :
        (o : Option ReleaseManifest)
        → release_at ch v b ≡ o
        → IsKept m o
        → IsKept m (release_at ch v c)
    go none e' z = elim z [ ]
    go (some m') e' z = IsKept-trans m m' (release_at ch v c) z (k ch v m' e')

pub save_manifest-Keeps :
    (channel version : String) (m' : ReleaseManifest) (s : Storage)
    → ((m : ReleaseManifest) → release_at channel version s ≡ some m → IsKept m (some m'))
    → Keeps s (save_manifest channel version m' s)
save_manifest-Keeps channel version m' s h c v m e =
    subst⁻¹ (IsKept m) (release_at-save_manifest channel version c v m' s)
      (go (str_eq channel c) (str_eq version v) refl refl)
  where
    go :
        (a b : Bool)
        → str_eq channel c ≡ a
        → str_eq version v ≡ b
        → IsKept m (if a && b then some m' else release_at c v s)
    go true true i j = h m (
        ap (λ x. release_at x version s) ((eq_iff channel c).0 i)
        ∙ ap (λ x. release_at c x s) ((eq_iff version v).0 j)
        ∙ e)
    go true false i j = same-Keeps s c v m e
    go false b i j = same-Keeps s c v m e

pub publish-Keeps :
    (io : Option UdsError) (m : ReleaseManifest) (s before after : Storage)
    → Keeps s before
    → Keeps s after
    → Keeps s (publish io m before after).1
publish-Keeps none m s before after h k = k
publish-Keeps (some e) m s before after h k = h

pub absent_manifest :
    (o : Option ReleaseManifest) (m m' : ReleaseManifest)
    → is_some o ≡ false
    → o ≡ some m
    → IsKept m (some m')
absent_manifest none m m' e h = elim (clash m h) [ ]
  where
    clash : (m : ReleaseManifest) → Path (Option ReleaseManifest) none (some m) → ⊥
    clash m h = cc
absent_manifest (some a) m m' e h = cc
