-- ===== src/Lib.antt =====
-- NovaVM, a microVM hypervisor and sandbox runtime in Rust: a verification library of its core.
--
-- The program. A VMM process runs virtual CPUs under KVM. Each exit of a CPU goes to a loop that serves
-- port accesses by a serial port and memory-mapped accesses by a bus of virtio devices (nova-vmm). A
-- device sits behind a register transport, shares split queues with the guest (nova-virtio), and the
-- queues lie in guest memory (nova-mem). Above that, a runtime manages sandboxes, a pool of warm VMs and
-- caches of images and snapshots (nova-runtime), and a policy engine admits sandboxes and judges their
-- events (nova-policy). Wasm sandboxes run under Wasmtime (nova-wasm). A boot loader puts a kernel, its parameters and an initrd into guest memory and
-- sets the CPU up for its entry (nova-boot). Inside the guest an agent serves commands (nova-agent) and
-- another forwards kernel events (nova-eye-agent), which the host's pipeline filters and hands to its
-- sinks (nova-eye).
--
-- Parts and files.
--   Common     Shared names and lemmas: tests on numbers (Tests), lists, results, slices, string maps,
--              little-endian bytes, bounds of `&` and `|`.
--   Mem        crates/nova-mem/src. Address: guest_address.rs. Region: mmap.rs over an oracle for `mmap`.
--              Memory: guest_memory.rs, from the search of a region to reads and writes of slices and
--              integers; Access, Contiguous and Layout prove what these do. Dirty: dirty.rs.
--   Virtio     crates/nova-virtio/src. Queue: queue.rs (`pop` is `pop`, its inner loop `walk`; `add_used`),
--              with proofs in Queue/Pop and Queue/Used. Trait: the trait `VirtioDevice` of mmio.rs as a
--              record that clients take as an instance. Mmio: the transport of mmio.rs over any device,
--              its register writes (`write_register`), status writes (`write_status`) and activation;
--              Rings, Inv and Activate hold its theorems. Config: what the devices share. Balloon:
--              balloon.rs and its dialogue with the guest. Net: the loops of net.rs, with Frame, Transmit
--              and Receive, and its methods in Net/Device, with Signals.
--   Vmm        crates/nova-vmm/src. Serial: `SerialState` of exit_handler.rs. Bus: device_mgr.rs.
--              Capture: the two capture loops of exit_handler.rs over the exits that the CPU reports;
--              Output describes what one exit sends, and Loop and Ends prove the loops. Run: `handle_exit`
--              and `run_vcpu_loop`, the loop without capture. Match: `run_vcpu_until_match`. Snapshot: the
--              memory dump and the region table of snapshot.rs; Restored maps the dump again, Loaded reads
--              it into other memory.
--   Runtime    crates/nova-runtime/src. Pool: pool.rs, one function for each critical section; Replenish is
--              the background thread, Step the interleavings, Goal and Safety the theorems. Sandbox:
--              sandbox/lifecycle.rs; Orchestrator and Wasm: sandbox/orchestrator.rs; Lifecycle, Sound and
--              Calls: its theorems. Snapshots: snapshot_cache.rs. Rootfs: image/rootfs_cache.rs. Blobs:
--              image/blob_store.rs.
--   Policy     crates/nova-policy/src. Engine: engine.rs. Admission: admission.rs. Enforcement:
--              enforcement.rs and builtin.rs. Bundle: bundle.rs.
--   Boot       crates/nova-boot/src. Params: boot_params.rs, the zero page as its bytes; Fields and Map prove
--              its accessors. Cmdline: cmdline.rs. Cpio: initrd.rs; Newc is a reader of the newc format,
--              independent of the writers. BzImage: bzimage.rs. Elf: elf.rs, loading in Elf/Load and the
--              panics of parsing in Elf/Parse. LongMode: cpu_setup.rs; Identity walks the page tables.
--              Pvh: pvh.rs; Found reads the structures back. The addresses are those of layout.rs.
--   Eye        Events: crates/nova-eye-common/src/events.rs and crates/nova-eye/src/filter.rs. Sources: the
--              sources of events of crates/nova-eye/src. Pipeline: aggregator.rs and pipeline.rs of that
--              crate; Delivery proves what a sink is handed. Forward: the poll loop of
--              crates/nova-eye-agent/src/main.rs and what the host's source makes of its packets.
--   Agent      crates/nova-agent/src. Vsock: vsock.rs and protocol.rs, with the framing proved in Frames.
--              Command: exec.rs, health.rs and the loop of main.rs, which Loop follows.
--   Wasm       crates/nova-wasm/src/pool.rs. Pool: the pool of compiled modules; Fifo and Refine compare it
--              with a queue for each name.
--   Tests      Runs on concrete inputs, and each theorem at inputs that meet its hypotheses.
--
-- How the parts meet. The queue reads and writes through Mem.Memory; the transport calls a device by the
-- record Virtio.Trait.VirtioDevice, which Balloon implements; the bus holds transports, and the capture
-- loop the bus and the serial port. The orchestrator owns a pool; admission calls the engine. The boot
-- loaders write through Mem.Memory. The pipeline takes sources and sinks as records of functions, and the
-- packets that Eye.Forward sends and that arrive are the ones that Eye.Sources receives: which of them the
-- network loses is an argument of the theorem. The perf buffers of the aya library are an interface,
-- PerfBuffer in Eye/Sources, with the documented reads as a hypothesis.
--
-- Conventions. Numbers are natural numbers, with the wrap-around of an integer type written out where the
-- code may reach it. A method on `&mut self` is a function to the new state and the result. A `HashMap`
-- with text keys is an association list. Locks are single steps: a function is what happens while the
-- lock is held. A panic is a value where the code may reach it.
--
-- Given from outside, as arguments: whether `mmap` succeeds (a mapped file reads as the file), whether a
-- dump can be written, what a file or index operation returns, the clock and the process id, SHA-256, the
-- TAP as lists of frames, what `KVM_RUN` returns, Wasmtime as functions, the JSON encoding of messages,
-- what `read` and `write` return on a socket, how a child process ends, and the bytes that a boot image's
-- reader gives.
--
-- Bounds and fuel. `walk` has as fuel the queue's size, which is the bound that the code checks. The
-- transmit loop runs on fuel that its theorem gives from the number of entries published. The receive loop
-- goes down the list of frames, the capture loop the list of turns, eviction the sorted entries. The pool's
-- steps ask that the id counter has not reached the end of 64 bits, and the sizes of the rootfs cache are
-- taken to have a sum of 64 bits. A read of n bytes from a socket has fuel n, since each turn reads at least
-- one; the command loop has fuel for each request that arrives; the search for an ELF note has the length
-- of the image, since a note takes twelve bytes; a decimal print has twenty digits, enough for 64 bits.
--
-- Not modelled. Calls of the kernel and of the host (KVM, TAP, eBPF, registry and file
-- formats, the walk over host directories), the watchdog threads, the probes that run in the kernel, the
-- services and command lines around the runtime; and, so far, the console, block and file system devices,
-- the image puller, the cache of Wasm modules, and the layout that the VMM's builder chooses.
pub mod Common
pub mod Mem
pub mod Virtio
pub mod Boot
pub mod Eye
pub mod Agent
pub mod Runtime
pub mod Vmm
pub mod Wasm
pub mod Policy
mod Tests
