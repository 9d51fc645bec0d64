-- ===== src/Tenancy/Guarded.antt =====
-- The handlers that ask for a permission (src/grpc.rs).
use iam_rust_auth.Base.{◌≡◌, String, Bool, [], ◌∷◌, format}
use iam_rust_auth.World.{Env, World, err, permission_denied}
use iam_rust_auth.Service
use iam_rust_auth.Service.{Rpc, MetadataMap, get_text, lists_perm}

-- The gateway's list of permissions for the caller has the permission.
abbrev pub holds : MetadataMap → String → Bool
holds md perm = lists_perm (get_text md "x-user-permissions") perm

-- A handler is refused for want of a permission, and has changed nothing: no row, no message, not
-- even the count of statements.
abbrev pub IsRefused : {A : Type 0} → Env → World → String → Rpc A → Type 0
IsRefused env w perm m =
    m env w ≡ (err (permission_denied (format ("permission denied: " ∷ perm ∷ []))), w)
