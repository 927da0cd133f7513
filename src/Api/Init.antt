-- ===== src/Api/Init.antt =====
-- api_init.
use netd_moduos.Common.{ℕ, List, [], ◌∷◌, ℤ, if◌then◌else◌}
use netd_moduos.State.{M, done}
use netd_moduos.Api.Reply.{unsigned32}
use netd_moduos.Main.Start.{is_zero}
use netd_moduos.Libc.Printf.{num, Printed, printf}
use netd_moduos.Libc.Printf.Laws.{codes}

-- What is handed to userfs_register; its `ops.invoke` is api_invoke.
pub record UserNode : Type 0 where
  pub path : List ℕ
  pub owner_id : List ℕ
  pub perms : ℕ

-- USERFS_PERM_READ_WRITE | USERFS_PERM_INVOKE is 7.
abbrev pub netd_node : UserNode
netd_node = record { path = codes "netd"; owner_id = codes "netd"; perms = 7 }

-- What api_init prints for the result of userfs_register.
unfoldable pub init_message : ℤ → Printed
init_message rc =
    if is_zero rc
    then printf (codes "[netd] API registered at $/user/netd\n") []
    else printf (codes "[netd] API register failed: %d\n") (num (unsigned32 rc) ∷ [])

-- api_init: the node that is registered, and what is printed.
unfoldable pub api_init : M (UserNode × Printed)
api_init s = done (netd_node, init_message s.os.registered) s
