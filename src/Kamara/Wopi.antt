-- ===== src/Kamara/Wopi.antt =====
-- Editing sessions: kamara/internal/wopi/wopi.go over WopiRepo of kamara/internal/store/repos.go.
pub mod Sessions
use Prim.Native.Char.{Char}
use peristera.Prelude.{
  ℕ, ◌+◌, ◌-◌, ◌*◌, ◌/◌, ◌%◌, String, Bool, true, false, not, ◌&&◌, ◌||◌, Option, none, some, List,
  [], ◌∷◌, ◌++◌, str_eq, ltb, ◌==◌, if◌then◌else◌, Result, ok, err, Error, invalid_session,
}
use peristera.Prelude.Exec.{Exec, pure, raise, lift, attempt, ◌>>=◌, ◌>>◌}
use peristera.Pii.{Subject}
use peristera.Database.{Db, stmt}
use peristera.Kamara.Blob.{BlobStore}
use peristera.Kamara.Chunk.{Sizes}
use peristera.Kamara.Crypto.{Primitives, Cipher, bytes_of}
use peristera.Kamara.Crypto.Hex.{encode}
use peristera.Kamara.Tables.{SessionRow, FileTables}
use peristera.Kamara.Store.{Store}
use peristera.Kamara.Files.{Authorizer, World, file_name, on_db, on_authz, clock}

unfoldable pub find_session : String → List SessionRow → Option SessionRow
find_session hash [] = none
find_session hash (s ∷ sessions) =
    if str_eq hash s.token_hash then some s else find_session hash sessions

abbrev unless_found : Option SessionRow → SessionRow → List SessionRow → List SessionRow
unless_found none s sessions = sessions ++ s ∷ []
unless_found (some x) s sessions = sessions

-- Put: ON CONFLICT (token_hash) DO NOTHING
unfoldable pub put_session : SessionRow → Store (Unit {0})
put_session s = stmt λ t. (
  ok tt,
  record t {
    wopi_sessions = unless_found (find_session s.token_hash t.wopi_sessions) s t.wopi_sessions;
  },
)

-- WopiRepo.Get
unfoldable pub get_session : String → Store (Option SessionRow)
get_session hash = stmt (λ t. (ok (find_session hash t.wopi_sessions), t))

unfoldable pub unexpired : ℕ → List SessionRow → List SessionRow
unexpired before [] = []
unexpired before (s ∷ sessions) =
    let rest = unexpired before sessions in if ltb s.expires before then rest else s ∷ rest

-- DeleteExpired
unfoldable pub delete_expired : ℕ → Store (Unit {0})
delete_expired before =
    stmt (λ t. (ok tt, record t { wopi_sessions = unexpired before t.wopi_sessions }))

unfoldable pub not_of_object : String → List SessionRow → List SessionRow
not_of_object id [] = []
not_of_object id (s ∷ sessions) =
    let rest = not_of_object id sessions in if str_eq id s.object_id then rest else s ∷ rest

-- DeleteByObject; Revoke
unfoldable pub revoke : String → Store (Unit {0})
revoke id = stmt (λ t. (ok tt, record t { wopi_sessions = not_of_object id t.wopi_sessions }))

abbrev alphabet : String
alphabet = "ABCDEFGHIJKLMNOPQRSTUVWXYZabcdefghijklmnopqrstuvwxyz0123456789-_"

unfoldable pub char_at : String → ℕ → Char
char_at String.[] n = "A"
char_at (String.◌∷◌ c s) n = let rest = char_at s (n - 1) in if n == 0 then c else rest

-- base64.RawURLEncoding.EncodeToString
unfoldable pub base64 : List ℕ → String
unfolding char_at
base64 [] = String.[]
base64 (a ∷ []) =
    String.◌∷◌ (char_at alphabet (a / 4)) (String.◌∷◌ (char_at alphabet (a % 4 * 16)) String.[])
base64 (a ∷ b ∷ []) = String.◌∷◌ (char_at alphabet (a / 4)) (
    String.◌∷◌ (char_at alphabet (a % 4 * 16 + b / 16))
      (String.◌∷◌ (char_at alphabet (b % 16 * 4)) String.[]))
base64 (a ∷ b ∷ d ∷ bytes) = String.◌∷◌ (char_at alphabet (a / 4)) (
    String.◌∷◌ (char_at alphabet (a % 4 * 16 + b / 16)) (
      String.◌∷◌ (char_at alphabet (b % 16 * 4 + d / 64))
        (String.◌∷◌ (char_at alphabet (d % 64)) (base64 bytes))))

abbrev pub token_bytes : ℕ
token_bytes = 32

-- crypto/sha256.
abbrev pub Sha256 : Type 0
Sha256 = List ℕ → List ℕ

-- hash
unfoldable pub token_hash : Sha256 → String → String
token_hash sum token = encode (sum (bytes_of token))

module _ (B : BlobStore) (prim : Primitives) (c : Cipher) (sz : Sizes) (az : Authorizer)
    (sum : Sha256) where
  unfoldable pub random_bytes : ℕ → Exec (World B prim c sz az) (List ℕ)
  random_bytes size w = (prim.random w.drawn size, record w { drawn = w.drawn + 1 })

  unfoldable pub store_session :
      String → Subject → String → Bool → ℕ → ℕ → Exec (World B prim c sz az) String
  store_session token subject id can_write now ttl = do
    on_db B prim c sz az (
        put_session (record {
          token_hash = token_hash sum token;
          object_id = id;
          subject = subject;
          can_write = can_write;
          expires = now + ttl;
        }))
    attempt (on_db B prim c sz az (delete_expired now))
    pure token

  -- Mint
  unfoldable pub mint : ℕ → Subject → String → Bool → Exec (World B prim c sz az) String
  mint ttl subject id can_write = do
    raw ← random_bytes token_bytes
    now ← clock B prim c sz az
    store_session (base64 raw) subject id can_write now ttl

  abbrev unexpired_at : ℕ → Option SessionRow → Result SessionRow
  unexpired_at now none = err invalid_session
  unexpired_at now (some s) = if ltb s.expires now then err invalid_session else ok s

  abbrev if_allowed : SessionRow → Bool → Result SessionRow
  if_allowed s true = ok s
  if_allowed s false = err invalid_session

  -- Validate
  unfoldable pub validate : String → Exec (World B prim c sz az) SessionRow
  validate token = if str_eq token "" then raise invalid_session else do
    found ← on_db B prim c sz az (get_session (token_hash sum token))
    now ← clock B prim c sz az
    s ← lift (unexpired_at now found)
    allowed ← on_authz B prim c sz az (az.check s.subject "can_access" (file_name s.object_id))
    lift (if_allowed s allowed)
