-- ===== src/Storage/Mutations.antt =====
-- The mutations of `Storage` in src/storage.rs, one after the other as the mutation lock orders them.
use update_delivery_system.Prelude.{ℕ, String, List, [], ◌∷◌, Option}
use update_delivery_system.Errors.{UdsError}
use update_delivery_system.Models.{ReleaseUploadMetadata, UploadPolicy}
use update_delivery_system.Storage.{Libraries, Storage, Staged}
use update_delivery_system.Storage.Repository.{
  put_release, patch_changelog, withdraw_release, copy_release,
}

-- A call with the outcome of its last change of the file system and its time.
pub data Mutation : Type 0 where
  put :
      Option UdsError
      → ℕ
      → String
      → String
      → ReleaseUploadMetadata
      → Staged
      → UploadPolicy
      → Mutation
  patch : Option UdsError → ℕ → String → String → String → Mutation
  withdraw : Option UdsError → ℕ → String → String → Mutation
  copy : Option UdsError → ℕ → String → String → String → Mutation

unfoldable pub mutate : Libraries → Mutation → Storage → Storage
mutate lib (put io now limit channel metadata files policy) s =
    (put_release lib io now limit channel metadata files policy s).1
mutate lib (patch io now channel version notes) s =
    (patch_changelog lib io now channel version notes s).1
mutate lib (withdraw io now channel version) s = (withdraw_release lib io now channel version s).1
mutate lib (copy io now source target version) s =
    (copy_release lib io now source target version s).1

unfoldable pub mutate_all : Libraries → List Mutation → Storage → Storage
mutate_all lib [] s = s
mutate_all lib (mutation ∷ mutations) s = mutate_all lib mutations (mutate lib mutation s)
