-- ===== src/Lib.antt =====
-- Bento's core, as a verification library: the address plan of a deployment, the data layer of its
-- controller, the fence of its runners, the routing of its HTTP proxy, and the wire format of the calls to
-- libvirt.
--
-- Bento (README.md, SPEC.md, MULTI-NODE.md) is a controller that keeps users, instances and hosts in SQLite,
-- and runners that act on virtual machines at the controller's request. Parts of it are modelled as follows.
--
-- Network (crates/network). Network/Slot.antt is slot.rs: a user's /24 divided into one to eight slots, one
-- for each runner. Network/Subnet.antt is subnet.rs: the /24s of the private range, numbered, and the allocators
-- of subnets and addresses, which take what the controller's tables list as used. Network/Routes.antt is
-- routes.rs: how a machine's routes to remote slots are brought to the desired ones. Network/Machine.antt is
-- machine.rs: the plan of a machine, its check, and its routes, bridges and firewall input. Network/Prefix.antt and
-- Network/Error.antt are the prefix of crates/config and the crate's errors. An IPv4 address is a number below
-- 2 ^ 32, and arithmetic on it wraps as u32 does. A prefix has a `bits` of u8.
--
-- Store (crates/store). Store/Database.antt is the tables, the errors and `with_tx` of lib.rs and schema.sql;
-- Store/Names.antt is names.rs, Store/Instances.antt is instances.rs, Store/Shares.antt is shares.rs, and
-- Store/Lease.antt is the controller lease of runners.rs and Store/Dispatch.antt its generations of dispatched
-- orders, as a release build computes them. Store/Slots.antt is the runner prefix and the slots that hosts own,
-- Store/Hosts.antt is hosts.rs and the observations of runners.rs, whose types are Store/Observation.antt, and
-- Store/Hosts/Placing.antt is the choice of a host for a new instance. A table is a list of rows; a statement is a function
-- on it; a transaction is a body that gives new tables with its result, or an error and no tables, and
-- `with_tx` commits it or rolls it back. Integers that go to SQLite are checked against 2 ^ 63, sums that
-- SQLite would refuse are refused, and u64 additions saturate, as in the code. The epoch of the lease is an
-- integer without the bound 2 ^ 63.
--
-- Runner (crates/runner). Runner/Protocol.antt and Runner/Reply.antt are protocol.rs, Runner/Store.antt is
-- store.rs, Runner/Fence.antt is fence.rs (`admit_as`, in four parts that follow each other as its checks do),
-- and Runner/Serve.antt is `serve_one` of lib.rs. The epoch that Store/Lease.antt raises at each acquisition is
-- the one that a request carries and that the fence compares.
--
-- Lifecycle (crates/lifecycle). Lifecycle/Manager.antt is what the manager of manager.rs works on, a world of the
-- tables and the machines, with the sequence of steps that its functions are; Lifecycle/Actions.antt is
-- actions.rs, Lifecycle/Create.antt is new.rs, Lifecycle/Rename.antt is rename.rs,
-- Lifecycle/Reconcile.antt is reconcile.rs, and Lifecycle/Allocate.antt the allocation of addresses of manager.rs,
-- over Network and Store. A step that fails keeps what it has changed.
--
-- Hypervisor (crates/hypervisor). Hypervisor/Xdr.antt is xdr.rs, with the writer in Hypervisor/Xdr/Write.antt and
-- the reader in Hypervisor/Xdr/Read.antt. A byte is a number below 256 and a usize has 64 bits.
--
-- Proxy (crates/proxy/src/lib.rs). Proxy/Host.antt is the host of a request, Proxy.antt the ports and the
-- decision on a request, over the instances of the store model and the answer of the caller's session, and
-- Proxy/Headers.antt the headers that go to an instance and come back. Config.antt (crates/config) is the two
-- domains and the reserved names, which the proxy and the creation of instances share.
--
-- Cli (crates/cli). Cli/Parse.antt is parse_flags of parse.rs, with the grammar that it accepts in
-- Cli/Parse/Grammar.antt.
--
-- Types.antt is crates/types. Shared.antt and its children are helpers: lists and tests over the native
-- numbers, texts as lists of characters (Shared/Texts.antt), tables by their key, an interface of equality, signed integers, and the search for the first free
-- number.
--
-- A time is a number of nanoseconds since the earliest time that the clock library can hold, so times can be
-- subtracted; a duration is a number of nanoseconds. Every reading of a clock is an argument. Loops are
-- structural recursion on lists, or on the number of rounds of the loop (`first_free`). Only the loop of
-- parse_flags, whose index skips arguments, runs on fuel, one more than there are arguments.
--
-- Parameters stand for code that is not the repository's: the `ip` command (Applier, with IsRouteTable for
-- what its calls do to the routes that it lists), SQLite (which statements and commits succeed, for each writing call of the manager by itself, and whether rows that
-- foreign keys name exist), the library for times and its texts (Clock, with ReadsBack), UTF-8 (Utf8, with
-- IsUtf8), the JSON text of a reply (to_json), the machine behind a runner (Host), the arithmetic of floats
-- (Float, with IsOrder), and the machines that the manager reaches through its hypervisor and fleet traits
-- (Machines).
--
-- The proxy takes the writer of numbers, the HTTP library with its headers (Http), the look-up of an instance, the
-- session check and the presence of the control plane (Seams), and reconciliation the list of domains.
--
-- Some reads of the manager's store trait stand as values too: the ceiling of a machine, the network of an
-- owner, and what a creation looks up of images and of the choice of a host (Lookups).
--
-- Not modelled: transport, HTML pages, files, external commands, the parsing of TOML, JSON and XML; users, keys,
-- pairings, tokens and images in the store; the reasons of a refused placement as texts, and the images that a host holds; the
-- copy and restoration of instances; and the commands of the command line.
pub mod Shared
pub mod Types
pub mod Network
pub mod Runner
pub mod Store
pub mod Hypervisor
pub mod Lifecycle
pub mod Config
pub mod Proxy
pub mod Cli
