-- ===== src/Lib.antt =====
-- Radiance, the backend core of the Lantern client: a verification library.
--
-- Radiance runs a VPN tunnel on the device. The tunnel (vpn) carries connections through sing-box, by
-- options that are built for it (vpn/boxoptions.go); each routed connection is tracked with its chain
-- of outbounds (vpn/clash.go, vpn/conntrack.go), and its bytes are sampled (vpn/throughput_tracker.go).
-- VPNClient (vpn/vpn.go) starts, stops and restarts it and emits its status, from which a session
-- history (vpn/session_history.go) is kept. Split tunneling (vpn/split_tunnel.go) keeps the items that
-- bypass the tunnel. Beside the tunnel run a memory monitor (vpn/memmon), which sheds connections
-- before the system kills the process, and a pooled buffer allocator (vpn/bufpool.go). A handler
-- (config/config.go) fetches the configuration, whose servers a manager (servers/manager.go) keeps on
-- disk and the tunnel takes up as outbounds (vpn/tunnel.go); how servers do is reported back
-- (backend/selection_reporter.go). Log lines go to clients (log/publish_handler.go) and into the archive
-- of an issue report (issue/archive.go). The settings (common/settings) are kept in a file, and taken
-- over from those of older versions. Requests of the client itself can go through DNS tunnels
-- (kindling/dnstt/parser.go).
--
-- Files and the code they model:
--
--   Common, Common/*: shared names, tests on numbers, lists, signed integers.
--   Memmon/Float: the float64 operations of the monitor as an interface. The kernel has no floats;
--     the theorems hold for every such interface, with the laws that they name as hypotheses.
--   Memmon/Types: vpn/memmon/types.go.
--   Memmon/Engine, Memmon/Engine/*: vpn/memmon/decision_engine.go. Decide is `decide`; a method of
--     *DecisionEngine takes the engine and returns the new one beside its result.
--   Memmon/Gate, Memmon/Gate/*: vpn/memmon/admissiongate.go, its atomic parts interleaved.
--   Memmon/Executor, Memmon/Executor/*: vpn/memmon/executor.go, with the calls it makes as a list.
--   Memmon/Monitor: vpn/memmon/monitor.go, one cycle of Run and the delay to the next.
--   Memmon/Fixed, Memmon/Tests: a concrete arithmetic, runs and examples.
--   Vpn/Status: VPNStatus of vpn/vpn.go, which the client sets and the session history reads.
--   Vpn/Client, Vpn/Client/*: the lifecycle of VPNClient, vpn/vpn.go (Connect, Disconnect, Restart,
--     setStatus, SelectServer, ClearTunnelCache). A method takes the client and returns the new one
--     with its reply; the emitted status events are a list in it.
--   Vpn/SessionHistory, Vpn/SessionHistory/*: vpn/session_history.go, each operation under its lock.
--   Vpn/SplitTunnel, Vpn/SplitTunnel/*: vpn/split_tunnel.go and vpn/split_tunnel_types.go; Update and
--     Save hold the item operations and the save, Load the constructor, initRuleMap and loadRule.
--   Vpn/Tests: runs and examples.
--   Log/Publisher, Log/Publisher/*: log/publish_handler.go, each operation under its lock.
--   Issue/Archive, Issue/Archive/*: issue/archive.go. The zip writer is an argument.
--   Backend/SelectionReporter, Backend/SelectionReporter/*: backend/selection_reporter.go, with the
--     success of the POST, and a reset while it is under way, as arguments.
--   Servers/Server, Servers/Manager, Servers/Manager/*: servers/manager.go. Manager.servers is the map;
--     the map's order, which Go leaves open, is the order of the list.
--   Config/Handler, Config/Handler/*: config/config.go, fetchConfig made of the parts under its mutex.
--   Config/File: the file of config/config.go, load with its migration and its quarantine.
--   Vpn/Clash, Vpn/Clash/*: vpn/clash.go. The loop of resolveChain has fuel, enough when no group leads
--     back to itself.
--   Settings, Settings/*: common/settings. World is the settings in memory with the files; the files of
--     older versions are read by Migration.
--   Vpn/BoxOptions, Vpn/BoxOptions/*: vpn/boxoptions.go with the rules of vpn/boxoptions_default.go. What
--     smart-routing and ad-block rules expand to, and whether a rule matches, are arguments.
--   Vpn/Throughput, Vpn/Throughput/*: vpn/conntrack.go and vpn/throughput_tracker.go. A sample is its
--     parts, the walk from connection to connection and the drain, and leave its three steps, between
--     all of which the others act.
--   Kindling/Config, Kindling/Config/*: the configurations of kindling/dnstt/parser.go.
--   Kindling/Tunnels, Kindling/Tunnels/*: the pool of tunnels of kindling/dnstt/parser.go; Pool has the
--     goroutines as steps. The answers of the DNS tunnel library are arguments.
--   Vpn/Outbounds, Vpn/Outbounds/*: addOutbounds, removeOutbounds and updateOutbounds of vpn/tunnel.go,
--     over the group manager of lantern-box as an argument.
--   Log/Tests, Issue/Tests, Backend/Tests, Servers/Tests, Config/Tests, Kindling/Tests,
--     Vpn/Outbounds/Tests, Vpn/Throughput/Tests, Vpn/BoxOptions/Tests,
--     Vpn/Clash/Tests, Settings/Tests: runs and examples.
--   Vpn/BufPool, Vpn/BufPool/*: vpn/bufpool.go, Get and Put made of their atomic parts.
--
-- Instants are nanoseconds since the zero time.Time; durations are signed. The clock, the memory
-- sensor, the reclaimer's answers, the inner allocator, what the tunnel answers and whether a file
-- write succeeds are arguments. The rule types of sing-box are cut to the fields that the code
-- reads. Log lines are left out.
-- bit_len runs on fuel 32, which is enough for a uint32; the search for the tail of a log runs on
-- fuel above the number of its chunks, of which every round rules out at least one.
--
-- Not modelled: the start of the sing-box services (the rest of vpn/tunnel.go), LocalBackend
-- (backend/radiance.go), the fetcher of configurations, private servers, the transports of kindling,
-- and the packages account, ipc and telemetry: they call remote services, sockets and the platform.
-- Log lines, spans and platform calls are not modelled.
pub mod Backend
pub mod Common
pub mod Config
pub mod Issue
pub mod Kindling
pub mod Log
pub mod Memmon
pub mod Servers
pub mod Settings
pub mod Vpn
