-- ===== src/Kamara/Api/Denied.antt =====
-- A caller whom the authorization service denies access (kamara/internal/api/api.go over
-- kamara/internal/file): the status, and what changes.
use Prim.Native.String.{◌++◌ as join}
use peristera.Prelude.{
  Error, ℕ, ◌≡◌, refl, String, Bool, true, false, Option, none, some, str_eq, if◌then◌else◌,
  Bool-cases, inl, inr, ok, err, wrapped, forbidden,
}
use peristera.Prelude.Exec.{Exec, ◌>>=◌, continue}
use peristera.Pii.{Subject}
use peristera.Kamara.Blob.{BlobStore}
use peristera.Kamara.Chunk.{Sizes}
use peristera.Kamara.Chunk.Split.{Reader}
use peristera.Kamara.Crypto.{Primitives, Cipher}
use peristera.Kamara.Engine.{Writer}
use peristera.Kamara.Store.{Store}
use peristera.Kamara.Files.{
  Authorizer, World, file_name, folder_name, on_authz, authorize_access, authorize, get_file,
  write_version, delete_file,
}
use peristera.Kamara.Folders.{
  read_folder, rename_file, move_file, rename_folder, move_folder, remove_folder,
}
use peristera.Kamara.FolderTree.{Collation, delete_folder_tree}
use peristera.Kamara.Listings.{versions_listed}
use peristera.Kamara.Api.{
  Response, write_err, fail, is_too_large, Handler, max_bytes, serve, get_handler, download_handler,
  put_content, versions_handler, delete_handler, rename_file_handler, move_file_handler,
  get_folder_handler, delete_folder_handler, download_zip_handler, NameBody, MoveBody,
  rename_folder_handler, move_folder_handler,
}

module _ (B : BlobStore) (prim : Primitives) (c : Cipher) (sz : Sizes) (az : Authorizer)
    (caller : Subject) (name : String) (w : World B prim c sz az) where
  abbrev asked : World B prim c sz az
  asked = record w { authz = (az.check caller "can_access" name w.authz).1 }

  abbrev Denied : {A : Type 0} → Exec (World B prim c sz az) A → Type 0
  Denied m = m w ≡ (err (wrapped name forbidden), asked)

  -- The response is 403, and nothing has changed but the authorization service, which was asked.
  abbrev pub Forbids : Handler B prim c sz az → Type 0
  Forbids h = h w ≡ (write_err 403 "forbidden", asked)

  -- A body that is malformed, or has an empty name, is answered 400 before the service is asked.
  abbrev pub RenameForbids : (NameBody → Handler B prim c sz az) → NameBody → Type 0
  RenameForbids h none = h none w ≡ (write_err 400 "invalid JSON body", w)
  RenameForbids h (some new) = h (some new) w ≡ (
      if str_eq new ""
      then (write_err 400 "name is required", w)
      else (write_err 403 "forbidden", asked))

  -- A body that is malformed, or lacks the field of the destination, is answered 400 before the service is
  -- asked.
  abbrev pub MoveForbids : String → (MoveBody → Handler B prim c sz az) → MoveBody → Type 0
  MoveForbids field h none = h none w ≡ (write_err 400 "invalid JSON body", w)
  MoveForbids field h (some none) =
      h (some none) w
      ≡ (write_err 400 (join "\"" (join field "\" field is required (use null for root)")), w)
  MoveForbids field h (some (some dest)) = Forbids (h (some (some dest)))

  module _ (denied : (az.check caller "can_access" name w.authz).0 ≡ ok false) where
    access-Denied : Denied (authorize_access B prim c sz az caller name)
    unfolding authorize_access on_authz ◌>>=◌
    access-Denied = rw (denied, continue) refl

    bind-Denied :
        {A C : Type 0} (m : Exec (World B prim c sz az) A) (f : A → Exec (World B prim c sz az) C)
        → Denied m
        → Denied (m >>= f)
    unfolding ◌>>=◌
    bind-Denied m f h = rw (h, continue) refl

    serve-Forbids :
        {A : Type 0} (m : Exec (World B prim c sz az) A) (good : A → Response)
        → Denied m
        → Forbids (serve B prim c sz az m good)
    unfolding serve
    serve-Forbids m good h = rw h refl

module _ (B : BlobStore) (prim : Primitives) (c : Cipher) (sz : Sizes) (az : Authorizer)
    (caller : Subject) (id : String) (w : World B prim c sz az) where
  -- The handlers of one file.
  pub record FileForbids : Type 0 where
    pub gets : Forbids B prim c sz az caller (file_name id) w (get_handler B prim c sz az caller id)
    pub downloads :
        (out : Writer)
        → Forbids B prim c sz az caller
            (file_name id)
            w
            (download_handler B prim c sz az caller id out)
    pub puts :
        (max : ℕ) (body : Reader)
        → Forbids B prim c sz az caller
            (file_name id)
            w
            (put_content B prim c sz az max caller id body)
    pub lists_versions :
        Forbids B prim c sz az caller (file_name id) w (versions_handler B prim c sz az caller id)
    pub deletes :
        (revoker : Option (String → Store (Unit {0})))
        → Forbids B prim c sz az caller
            (file_name id)
            w
            (delete_handler B prim c sz az revoker caller id)
    pub renames :
        (body : NameBody)
        → RenameForbids B prim c sz az caller
            (file_name id)
            w
            (rename_file_handler B prim c sz az caller id)
            body
    pub moves :
        (body : MoveBody)
        → MoveForbids B prim c sz az caller
            (file_name id)
            w
            "folder"
            (move_file_handler B prim c sz az caller id)
            body

  -- The handlers of one folder.
  pub record FolderForbids : Type 0 where
    pub gets :
        Forbids B prim c sz az caller
          (folder_name id)
          w
          (get_folder_handler B prim c sz az caller id)
    pub deletes :
        (before : Collation) (revoker : Option (String → Store (Unit {0}))) (recursive : Bool)
        → Forbids B prim c sz az caller
            (folder_name id)
            w
            (delete_folder_handler B prim c sz az before revoker recursive caller id)
    pub zips :
        (before : Collation) (faults : ℕ → Option Error)
        → Forbids B prim c sz az caller
            (folder_name id)
            w
            (download_zip_handler B prim c sz az before caller id faults)
    pub renames :
        (body : NameBody)
        → RenameForbids B prim c sz az caller
            (folder_name id)
            w
            (rename_folder_handler B prim c sz az caller id)
            body
    pub moves :
        (body : MoveBody)
        → MoveForbids B prim c sz az caller
            (folder_name id)
            w
            "parent"
            (move_folder_handler B prim c sz az caller id)
            body

  module _ (d : (az.check caller "can_access" (file_name id) w.authz).0 ≡ ok false) where
    get_file-Denied :
        Denied B prim c sz az caller (file_name id) w (get_file B prim c sz az caller id)
    unfolding get_file authorize
    get_file-Denied =
        bind-Denied B prim c sz az caller (file_name id) w d _ _
          (access-Denied B prim c sz az caller (file_name id) w d)

    write_version-Denied :
        (r : Reader) (base : Option ℕ)
        → Denied B prim c sz az caller
            (file_name id)
            w
            (write_version B prim c sz az caller id r base)
    unfolding write_version authorize
    write_version-Denied r base =
        bind-Denied B prim c sz az caller (file_name id) w d _ _
          (access-Denied B prim c sz az caller (file_name id) w d)

    versions_listed-Denied :
        Denied B prim c sz az caller (file_name id) w (versions_listed B prim c sz az caller id)
    unfolding versions_listed authorize
    versions_listed-Denied =
        bind-Denied B prim c sz az caller (file_name id) w d _ _
          (access-Denied B prim c sz az caller (file_name id) w d)

    delete_file-Denied :
        (revoker : Option (String → Store (Unit {0})))
        → Denied B prim c sz az caller
            (file_name id)
            w
            (delete_file B prim c sz az revoker caller id)
    unfolding delete_file authorize
    delete_file-Denied revoker =
        bind-Denied B prim c sz az caller (file_name id) w d _ _
          (access-Denied B prim c sz az caller (file_name id) w d)

    move_file-Denied :
        (dest : Option String)
        → Denied B prim c sz az caller (file_name id) w (move_file B prim c sz az caller id dest)
    unfolding move_file authorize
    move_file-Denied dest =
        bind-Denied B prim c sz az caller (file_name id) w d _ _
          (access-Denied B prim c sz az caller (file_name id) w d)

    rename_file-Denied :
        (name : String)
        → str_eq name "" ≡ false
        → Denied B prim c sz az caller (file_name id) w (rename_file B prim c sz az caller id name)
    unfolding rename_file authorize
    rename_file-Denied name given = rw given (
        bind-Denied B prim c sz az caller (file_name id) w d _ _
          (access-Denied B prim c sz az caller (file_name id) w d))

    file_rename-Forbids :
        (body : NameBody)
        → RenameForbids B prim c sz az caller
            (file_name id)
            w
            (rename_file_handler B prim c sz az caller id)
            body
    unfolding rename_file_handler
    file_rename-Forbids none = refl
    file_rename-Forbids (some name) = elim (Bool-cases (str_eq name "")) [
      | inl empty ↦ rw empty refl
      | inr given ↦ rw given (
          serve-Forbids B prim c sz az caller (file_name id) w d _ _
            (rename_file-Denied name given))
    ]

    file_move-Forbids :
        (body : MoveBody)
        → MoveForbids B prim c sz az caller
            (file_name id)
            w
            "folder"
            (move_file_handler B prim c sz az caller id)
            body
    unfolding move_file_handler
    file_move-Forbids none = refl
    file_move-Forbids (some none) = refl
    file_move-Forbids (some (some dest)) =
        serve-Forbids B prim c sz az caller (file_name id) w d _ _ (move_file-Denied dest)

    -- If the authorization service denies the caller access to a file, every handler of /v1/files/{id} answers
    -- 403, changes neither the database nor a blob, and asks the service nothing else; but a rename or a
    -- move whose body is no JSON, a rename whose name is absent or empty and a move without its field are
    -- answered 400, and change and ask nothing.
    pub file-FileForbids : FileForbids
    unfolding get_handler download_handler put_content versions_handler delete_handler fail
        is_too_large
    file-FileForbids = record {
      gets = serve-Forbids B prim c sz az caller (file_name id) w d _ _ get_file-Denied;
      downloads = λ out. rw get_file-Denied refl;
      puts = λ max body. rw (write_version-Denied (max_bytes max body) none) refl;
      lists_versions =
          serve-Forbids B prim c sz az caller (file_name id) w d _ _ versions_listed-Denied;
      deletes = λ revoker.
          serve-Forbids B prim c sz az caller (file_name id) w d _ _ (delete_file-Denied revoker);
      renames = file_rename-Forbids;
      moves = file_move-Forbids;
    }

  module _ (d : (az.check caller "can_access" (folder_name id) w.authz).0 ≡ ok false) where
    read_folder-Denied :
        Denied B prim c sz az caller (folder_name id) w (read_folder B prim c sz az caller id)
    unfolding read_folder
    read_folder-Denied =
        bind-Denied B prim c sz az caller (folder_name id) w d _ _
          (access-Denied B prim c sz az caller (folder_name id) w d)

    remove_folder-Denied :
        Denied B prim c sz az caller (folder_name id) w (remove_folder B prim c sz az caller id)
    unfolding remove_folder
    remove_folder-Denied =
        bind-Denied B prim c sz az caller (folder_name id) w d _ _
          (access-Denied B prim c sz az caller (folder_name id) w d)

    move_folder-Denied :
        (dest : Option String)
        → Denied B prim c sz az caller
            (folder_name id)
            w
            (move_folder B prim c sz az caller id dest)
    unfolding move_folder
    move_folder-Denied dest =
        bind-Denied B prim c sz az caller (folder_name id) w d _ _
          (access-Denied B prim c sz az caller (folder_name id) w d)

    rename_folder-Denied :
        (name : String)
        → str_eq name "" ≡ false
        → Denied B prim c sz az caller
            (folder_name id)
            w
            (rename_folder B prim c sz az caller id name)
    unfolding rename_folder
    rename_folder-Denied name given = rw given (
        bind-Denied B prim c sz az caller (folder_name id) w d _ _
          (access-Denied B prim c sz az caller (folder_name id) w d))

    delete_folder_tree-Denied :
        (before : Collation) (revoker : Option (String → Store (Unit {0})))
        → Denied B prim c sz az caller
            (folder_name id)
            w
            (delete_folder_tree B prim c sz az before revoker caller id)
    unfolding delete_folder_tree
    delete_folder_tree-Denied before revoker =
        bind-Denied B prim c sz az caller (folder_name id) w d _ _
          (access-Denied B prim c sz az caller (folder_name id) w d)

    recursive-Denied :
        (before : Collation) (revoker : Option (String → Store (Unit {0}))) (recursive : Bool)
        → Denied B prim c sz az caller (folder_name id) w (
            if recursive
            then delete_folder_tree B prim c sz az before revoker caller id
            else remove_folder B prim c sz az caller id)
    recursive-Denied before revoker true = delete_folder_tree-Denied before revoker
    recursive-Denied before revoker false = remove_folder-Denied

    folder_rename-Forbids :
        (body : NameBody)
        → RenameForbids B prim c sz az caller
            (folder_name id)
            w
            (rename_folder_handler B prim c sz az caller id)
            body
    unfolding rename_folder_handler
    folder_rename-Forbids none = refl
    folder_rename-Forbids (some name) = elim (Bool-cases (str_eq name "")) [
      | inl empty ↦ rw empty refl
      | inr given ↦ rw given (
          serve-Forbids B prim c sz az caller (folder_name id) w d _ _
            (rename_folder-Denied name given))
    ]

    folder_move-Forbids :
        (body : MoveBody)
        → MoveForbids B prim c sz az caller
            (folder_name id)
            w
            "parent"
            (move_folder_handler B prim c sz az caller id)
            body
    unfolding move_folder_handler
    folder_move-Forbids none = refl
    folder_move-Forbids (some none) = refl
    folder_move-Forbids (some (some dest)) =
        serve-Forbids B prim c sz az caller (folder_name id) w d _ _ (move_folder-Denied dest)

    -- If the authorization service denies the caller access to a folder, every handler of /v1/folders/{id},
    -- the recursive deletion and the zip download included, answers 403, changes neither the database nor
    -- a blob, and asks the service nothing else; but a rename or a move whose body is no JSON, a rename
    -- whose name is absent or empty and a move without its field are answered 400, and change and ask
    -- nothing.
    pub folder-FolderForbids : FolderForbids
    unfolding get_folder_handler delete_folder_handler download_zip_handler fail
    folder-FolderForbids = record {
      gets = serve-Forbids B prim c sz az caller (folder_name id) w d _ _ read_folder-Denied;
      deletes = λ before revoker recursive.
          serve-Forbids B prim c sz az caller (folder_name id) w d _ _
            (recursive-Denied before revoker recursive);
      zips = λ before faults. rw read_folder-Denied refl;
      renames = folder_rename-Forbids;
      moves = folder_move-Forbids;
    }
