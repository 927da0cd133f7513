-- ===== src/Lib.antt =====
-- netd, the user-space network daemon of ModuOS: a verification of its C code.
--
-- The program. netd owns one network device. `src/driver.c` talks to the device's file, `src/arp.c`
-- keeps the neighbour table, `src/ip.c` builds and takes apart IPv4 packets, `src/icmp.c`,
-- `src/udp.c`, `src/dhcp.c` and `src/dns.c` are the protocols above, `src/main.c` receives frames and
-- hands them down, and `src/api.c` serves requests of other programs. They share one global,
-- `g_net` of `include/netd.h`, and `g_ip_id` of `src/ip.c`.
--
-- The model. A handler is a function of the monad `M` (State/Monad): it takes the whole state `Sys`
-- (`g_net`, `g_ip_id` and the kernel) and is `done` with a result and a new state, or a `fault`, or
-- it would `spin`. A `fault` is a read or a write outside a buffer. The kernel (State/Kernel) is not
-- part of the repository: the answers of `time_ms`, `read`, `write` and `open` are an oracle, so
-- that each theorem holds for every behaviour of the kernel that its hypotheses allow. What is
-- written to the device is kept in `written`, the newest first.
-- A pointer to received bytes is the list of the bytes that were received from there on; a length
-- that a packet claims is a number beside it. Numbers of C are natural numbers, with `% 2 ^ w`
-- where they wrap. A C string is what can be read from its first character on, the zero included.
--
-- The files.
--   Common and its children: names of the libraries, Boolean tests, lists, integers, bits.
--   Wire: constants, byte order, loads and stores, the checksum (include/netd.h); Wire/Fields has the
--     fields of a message that a server writes.
--   State: `g_net` (include/netd.h), the kernel and the monad.
--   Driver: driver_open, driver_transact, driver_tx, driver_rx (src/driver.c).
--   Arp: arp_init, arp_learn, arp_lookup, arp_send, arp_announce, arp_request, arp_rx (src/arp.c).
--   Ip/Tx and Ip/Rx: ip_tx and ip_rx (src/ip.c); Ip/Rx/Delivery and Ip/Rx/Servers follow datagrams
--     from machine to machine, and Ip/Rx/Truncated has frames that were received in part.
--   Icmp: icmp_rx and icmp_ping (src/icmp.c).
--   Udp: udp_bind, udp_unbind, udp_recv (Udp/Table), udp_tx, udp_rx (src/udp.c).
--   Dhcp/Options and Dhcp/Client: the options, dhcp_send, dhcp_start, dhcp_rx and dhcp_bound
--     (src/dhcp.c); Dhcp/Client/Message follows whole messages through dhcp_rx.
--   Dns/Query, Dns/Rx and Dns/Resolve: dns_build_query, dns_rx and dns_resolve (src/dns.c);
--     Dns/Query/Labels and Dns/Rx/Message, Answers and Response have the format of the messages.
--   Main/Rx and Main/Start: rx_once and md_main (src/main.c).
--   Api: api_invoke and the commands (src/api.c): the reply (Api/Reply), the settings and the
--     neighbour table (Api/Info), pings (Api/Ping), ports (Api/Ports) and names (Api/Names), and the
--     choice of the command (Api/Invoke); api_init (Api/Init). Api/Requests and Api/Transfer follow
--     data from program to program, Api/Pings and Api/Answered a ping that nobody answers and one that
--     is answered.
--   Live: the handlers above come to an end; Live/Rules has a rule for each way to build a handler,
--     Live/Ends the results, and Live/Configured what the start of the daemon leaves.
--   Libc: memset, memcpy, memmove, memcmp and strlen (Libc/Memory), searching, comparing, copying and
--     strtok (Libc/Strings), the output of numbers (Libc/Print) and their input (Libc/Numbers),
--     printf (Libc/Printf), snprintf (Libc/Snprintf), sprintf (Libc/Sprintf), input_line_to_buffer
--     (Libc/Input) and the heap (Libc/Heap), of include/libc.h.
--   Examples: the theorems at concrete inputs.
--
-- Fuel. The loop of driver_transact waits for the device and has no bound in the source; the model
-- takes rounds from the oracle (`fuel`, also for the waits of dns_resolve, md_main and a ping, which
-- end at a time), and `IsPrompt lag` says that the device answers within `lag` empty reads and that
-- there are rounds for that. `IsTicking` says that the clock passes a deadline of less than 2^16 ms
-- within as many readings as there are rounds, and `IsLive` both. The loops over options, names and
-- formats move on by at least a byte in each round, and run with one round more than there are
-- bytes. The checksum folds its carries twice. The digits of a number of 64 bits take 64 rounds.
--
-- The kernel may run other code of the program at the `yield` in a ping's wait, so that this `yield`
-- is a parameter of the wait and of api_invoke (Api/Ping, Api/Invoke): any handler at all, about which
-- a theorem has a hypothesis where it matters. realloc reads a header behind its chunk; `mapped`, a
-- parameter of it, says where the process has memory.
--
-- Not modelled. What the kernel does with the node that api_init registers. `sleep`, and `yield` in
-- driver_transact and dns_resolve, change no state of the model, and neither does what is printed,
-- which Libc models apart.
-- Of `include/libc.h` the wrappers that only make a system call, with `errno`, and `setenv`,
-- `input_flush` and `_start`; of the heap's memory only the headers. Where C leaves the overflow of a
-- number that is read undefined, the model has no result.
-- `dhcp_build_base` of `src/dhcp.c` is never called. Alignment of cast pointers is not modelled.
mod Common
pub mod Wire
pub mod State
pub mod Driver
pub mod Arp
pub mod Ip
pub mod Icmp
pub mod Udp
pub mod Dhcp
pub mod Dns
pub mod Main
pub mod Api
pub mod Live
pub mod Libc
mod Examples
