-- ===== src/Api/Names.antt =====
-- NETD_CMD_DNS_RESOLVE.
use netd_moduos.Common.{ℕ, List, Option, none, some, pos, negsuc, drop}
use netd_moduos.State.{M, pure, ◌>>=◌}
use netd_moduos.Dns.Resolve.{dns_resolve}
use netd_moduos.Api.Reply.{bytes32, Reply, reply, with_size}

-- netd_dns_rep_t.
unfoldable pub dns_reply : Option ℕ → Reply
dns_reply none = reply (negsuc 0) (bytes32 0)
dns_reply (some ip) = reply (pos 0) (bytes32 ip)

-- The name is what can be read from the request's fifth byte on.
unfoldable pub resolve_name : List ℕ → M Reply
resolve_name req = with_size 256 req (dns_resolve (drop 4 req) >>= λ ip. pure (dns_reply ip))
