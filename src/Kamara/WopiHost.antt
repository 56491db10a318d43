-- ===== src/Kamara/WopiHost.antt =====
-- The three endpoints that the office engine drives (kamara/internal/api/wopi.go). A token arrives in the
-- header or in the query, which `wopi_token` tells apart; times are numbers.
pub mod Guarded
use peristera.Prelude.{
  ℕ, String, Bool, true, false, not, ◌&&◌, ◌||◌, Option, none, some, List, str_eq, if◌then◌else◌,
  Result, ok, err, Error, not_found, forbidden,
}
use peristera.Prelude.Errors.{root_of, is_invalid_session}
use peristera.Prelude.Exec.{Exec}
use peristera.Pii.{Subject}
use peristera.Kamara.Blob.{BlobStore}
use peristera.Kamara.Chunk.{Sizes}
use peristera.Kamara.Chunk.Split.{Reader}
use peristera.Kamara.Crypto.{Primitives, Cipher}
use peristera.Kamara.Engine.{Writer}
use peristera.Kamara.Tables.{FileObject, SessionRow}
use peristera.Kamara.Files.{Authorizer, World, get_file, write_version}
use peristera.Kamara.Listings.{download}
use peristera.Kamara.Wopi.{Sha256, validate}
use peristera.Kamara.Api.{max_bytes, is_too_large, content_type_or}

-- What CheckFileInfo tells, less its constants.
pub record FileInfo : Type 0 where
  pub base_file_name : String
  pub size : ℕ
  pub version : ℕ
  pub owner_id : String
  pub user_id : String
  pub user_can_write : Bool
  pub supports_locks : Bool

pub data WopiBody : Type 0 where
  nothing : WopiBody
  info : FileInfo → WopiBody
  content : String → Option (List ℕ) → WopiBody
  -- The header X-WOPI-ItemVersion.
  item_version : ℕ → WopiBody

pub record WopiResponse : Type 0 where
  pub status : ℕ
  pub body : WopiBody

abbrev pub reply : ℕ → WopiBody → WopiResponse
reply status body = record { status = status; body = body }

abbrev pub bare : ℕ → WopiResponse
bare status = reply status nothing

-- wopiToken
unfoldable pub wopi_token : String → String → String
wopi_token bearer query = if not (str_eq bearer "") then bearer else query

abbrev pub fail_root : Error → ℕ
fail_root not_found = 404
fail_root forbidden = 403
fail_root e = 500

-- failWopi
unfoldable pub fail_wopi : Error → WopiResponse
unfolding root_of
fail_wopi e = bare (fail_root (root_of e))

unfoldable pub fail_put : Error → WopiResponse
unfolding fail_wopi is_too_large
fail_put e = if is_too_large e then bare 413 else fail_wopi e

-- The status of a token that is not valid: 401, and 500 where the check itself failed.
unfoldable pub fail_session : Error → WopiResponse
unfolding is_invalid_session
fail_session e = if not (is_invalid_session e) then bare 500 else bare 401

module _ (B : BlobStore) (prim : Primitives) (c : Cipher) (sz : Sizes) (az : Authorizer)
    (sum : Sha256) where
  abbrev pub WopiHandler : Type 0
  WopiHandler = World B prim c sz az → WopiResponse × World B prim c sz az

  abbrev pub in_session : (SessionRow → WopiHandler) → String → Result SessionRow → WopiHandler
  in_session next id (err e) w = (fail_session e, w)
  in_session next id (ok s) w = if not (str_eq s.object_id id) then (bare 401, w) else next s w

  -- WopiHandler.session
  unfoldable pub with_session : (SessionRow → WopiHandler) → String → String → WopiHandler
  with_session next token id w =
      let (r, w') = validate B prim c sz az sum token w in in_session next id r w'

  abbrev info_of : SessionRow → FileObject → FileInfo
  info_of s o = record {
    base_file_name = o.name;
    size = o.size;
    version = o.updated;
    owner_id = o.owner.user_id;
    user_id = s.subject.user_id;
    user_can_write = s.can_write;
    supports_locks = false;
  }

  abbrev then_info : SessionRow → Result FileObject → WopiResponse
  then_info s (ok o) = reply 200 (info (info_of s o))
  then_info s (err e) = fail_wopi e

  -- checkFileInfo
  unfoldable pub check_file_info : SessionRow → WopiHandler
  check_file_info s w =
      let (r, w') = get_file B prim c sz az s.subject s.object_id w in (then_info s r, w')

  abbrev sent : Result Writer → Option (List ℕ)
  sent (ok out) = some out.written
  sent (err e) = none

  abbrev then_content : SessionRow → Writer → Result FileObject → WopiHandler
  then_content s out (err e) w = (fail_wopi e, w)
  then_content s out (ok o) w =
      let (r, w') = download B prim c sz az s.subject s.object_id out w in
      (reply 200 (content (content_type_or o.content_type) (sent r)), w')

  -- getFile
  unfoldable pub wopi_get_file : Writer → SessionRow → WopiHandler
  wopi_get_file out s w =
      let (r, w') = get_file B prim c sz az s.subject s.object_id w in then_content s out r w'

  abbrev pub then_version : Result ℕ → WopiResponse
  then_version (ok ordinal) = reply 200 (item_version ordinal)
  then_version (err e) = fail_put e

  -- putFile: only the override PUT, or none.
  unfoldable pub wopi_put_file : ℕ → String → Reader → SessionRow → WopiHandler
  wopi_put_file max override body s w =
      if not (str_eq override "") && not (str_eq override "PUT")
      then (bare 501, w)
      else if not s.can_write
      then (bare 403, w)
      else (let (r, w') =
            write_version B prim c sz az s.subject s.object_id (max_bytes max body) none w in
          (then_version r, w'))
