-- ===== src/Lib.antt =====
-- A model of the core of the docker daemon, version 1.2.0, with the theorems that it keeps its books.
--
-- The parts and how they interact:
--
-- Net/PortAllocator.antt is daemon/networkdriver/portallocator/portallocator.go: the sets of host ports
-- that are in use, for each address and protocol. `request_port` is RequestPort, `release_port`
-- ReleasePort, `find_port` the search of findPort. The mutex makes each call one step on the global
-- map, which the functions take and return.
--
-- Net/Ipv4.antt and Net/IpAllocator.antt are daemon/networkdriver/utils.go and
-- daemon/networkdriver/ipallocator/allocator.go: networks as four bytes of address and mask, and the
-- positions that are allocated in each. `request_ip` is RequestIP, `release_ip` ReleaseIP,
-- `get_next_ip` getNextIP. An int32 is its bit pattern, with the wrap-around written out
-- (Common/Words.antt).
--
-- Net/Iptables.antt is Raw and Chain.Forward of pkg/iptables/iptables.go. The program iptables is
-- outside of the repository: what it answers is a parameter. Net/PortMapper.antt is
-- daemon/networkdriver/portmapper/mapper.go: `map_port` is Map and `unmap_port` Unmap, over the port
-- allocator and the rules. Whether the userland proxy starts is a parameter.
--
-- Net/Bridge.antt is daemon/networkdriver/bridge/driver.go: the jobs allocate_interface (`allocate`),
-- release_interface (`release`), allocate_port (`allocate_port`) and link (`link_containers`), which
-- call the allocators and the port mapper and keep the interfaces of the containers.
-- Net/Bridge/Rules.antt is its setupIPTables.
--
-- Daemon/State.antt is daemon/state.go: the flags, the pid and the exit code of a container, and the
-- waits for their change. Daemon/Monitor.antt is daemon/monitor.go: the loop that runs a container's
-- process and restarts it by its policy. What the world does in a round of the loop is a value `Round`.
--
-- Config/Parsers.antt is pkg/parsers/parsers.go and Config/Ports.antt nat/nat.go: references,
-- templates, and the port specifications of docker run, which `parse_port_specs` (ParsePortSpecs)
-- reads. Whether net.ParseIP reads a text is a parameter. Config/Hosts.antt is ParseHost of
-- pkg/parsers/parsers.go. Config/Runconfig.antt is runconfig/config.go, with Compare of
-- runconfig/compare.go and Merge of runconfig/merge.go in its folder. Merge is given both
-- configurations and returns both, since it may write to the map of ports that they share.
-- Config/Version.antt is pkg/version/version.go.
--
-- Events.antt is events/events.go: the last 64 events of the daemon (`log`), the channels that listen
-- (`subscribe`, `unsubscribe`), and what a new listener is sent again (`write_current`).
--
-- Images/TruncIndex.antt is pkg/truncindex/truncindex.go, the index of identifiers by their beginnings,
-- over a trie that is a parameter. Images/TagStore.antt is graph/tags.go: the names of the images in
-- memory and in the file that is read before, and written after, each change (`set`, `delete`), with
-- the pools of pulls and pushes in Images/TagStore/Pools.antt and ByID, GetRepoRefs and DeleteAll in
-- Images/TagStore/Names.antt. Whether the disk works is a parameter.
--
-- Storage/Metadata.antt, Storage/Devices.antt and Storage/Mounts.antt are
-- daemon/graphdriver/devmapper/deviceset.go with the calls of devmapper.go that it makes: the
-- transactions and files of the devices (`register_device`, `load_metadata`), creating and deleting
-- devices (`add_device`, `delete_device`, `setup_base_image`, `shutdown`), and mounting them
-- (`mount_device`, `unmount_device`). The kernel is a part of the state, `Pool`, and a value `World` that
-- says which calls succeed while a function runs.
--
-- Archive/Changes.antt and Archive/Layers.antt are archive/changes.go: the changes between two trees
-- (`changes`), those of a topmost layer (`layer_changes`), and the whiteouts that ExportChanges writes.
--
-- Engine/Env.antt is engine/env.go: the environment of a job as texts `key=value`.
--
-- Streams/StdCopy.antt is utils/stdcopy.go: the frames that StdWriter writes (`std_write`), and StdCopy
-- (`std_copy`), which reads them back from a connection whose reads are a list of pieces.
-- Streams/Shell.antt is ShellQuoteArguments of utils/utils.go.
--
-- Common/ holds what the parts share: tests, lists, maps as association lists, and the functions of
-- Go's strings and strconv that are used, on texts of bytes.
--
-- Bounds and fuel: the search of findPort takes fuel, since it need not end. `search_fuel`, 16384, is
-- more than the 16383 ports of the range, and is shown to be enough wherever the search ends. The loop
-- of getNextIP is counted and needs none. The loop of the monitor runs over the list of its rounds.
-- The search for the identifier of a device takes as much fuel as the pool has devices and one more,
-- and never runs out of it; StdCopy takes as much as its input has bytes and one more, which is enough
-- for all that StdWriters write. The waits for a device have their 1000 rounds. Ports and pids are
-- numbers that do not wrap; the increment of the monitor is kept below 2 ^ 64.
--
-- Not modelled: container ports that are negative, IPv6 addresses in the address allocator, the set up of the bridge, the processes of
-- the containers and their streams, the set up of the thin pool and the other storage drivers, the
-- files of the images, the bytes of archives, the builder, the command line and the remote API.
pub mod Common
pub mod Net
pub mod Daemon
pub mod Config
pub mod Events
pub mod Images
pub mod Storage
pub mod Archive
pub mod Engine
pub mod Streams
