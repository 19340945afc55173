-- ===== src/Lib.antt =====
-- Models and proofs for FireWireAudio, the library and daemon that drive FireWire audio interfaces on
-- macOS. Modelled is the part of the library that decides what goes over the bus and what is read from
-- it: the streaming side under src/Isoch, and of the AV/C side under src/FWA the
-- descriptors, their info blocks and the stream formats.
--
-- How the parts interact. A client pushes interleaved samples into the packet provider
-- (Provider, src/Isoch/core/IsochPacketProvider.cpp), which keeps them in the byte ring
-- (Ring, include/Isoch/utils/RingBuffer.hpp) and labels them as AM824 when the transmitter fills a
-- packet. The transmitter (Cip/Transmitter, src/Isoch/core/AmdtpTransmitter.cpp) puts a CIP header in
-- front, whose SYT timestamps and block counter come from the clock of Syt; the class CIPHeaderHandler
-- (Cip/Handler, src/Isoch/utils/CIPHeaderHandler.cpp) makes such headers too. On the receiving side the
-- packet processor (Cip/Processor, src/Isoch/core/IsochPacketProcessor.cpp) reads header and samples
-- from the slots that the buffer manager laid out (Receive, src/Isoch/core/IsochBufferManager.cpp),
-- where the DCL program of src/Isoch/core/IsochDCLManager.cpp (Receive/Dcl) puts them.
-- The port and channel manager (PortChannel, src/Isoch/core/IsochPortChannelManager.cpp) owns the ports
-- and the channel, which the transport manager (Transport, src/Isoch/core/IsochTransportManager.cpp)
-- starts and stops, and the monitor (Monitoring, src/Isoch/core/IsochMonitoringManager.cpp) reports silence.
-- Shm (include/shared/SharedMemoryStructures.hpp) is the ring of audio chunks between the Core Audio
-- plug-in and the daemon. FwTime (include/Isoch/utils/TimingUtils.hpp) converts bus times. Specifier
-- (src/FWA/DescriptorUtils.cpp) makes and reads the addresses of AV/C descriptors. Access
-- (src/FWA/DescriptorAccessor.cpp) reads and writes descriptors with commands that carry such
-- addresses, InfoBlock (src/FWA/AVCInfoBlock.cpp) parses the info blocks found in them, and
-- StreamFormat (src/FWA/AudioStreamFormat.cpp, src/FWA/PlugDetailParser.cpp) writes, reads and queries
-- the stream formats of plugs. AmdtpTransmitter (src/Isoch/core/AmdtpTransmitter.cpp) joins
-- the managers of the sending side; Transmit is the transmitter's memory
-- (src/Isoch/core/IsochTransmitBufferManager.cpp) and the DCL program that sends packets from it
-- (src/Isoch/core/IsochTransmitDCLManager.cpp).
--
-- Files. Each part has its state and operations in the file of its name, one definition for each
-- method, named after it in snake case (pushAudioData is push_audio_data), and its proofs and tests in
-- child modules. Prelude holds the names that all share: tests on numbers, lists indexed by numbers,
-- masks (Prelude/Bits), integers (Prelude/Int), std::expected (Prelude/Expected) and the places of slots
-- in memory (Prelude/Layout).
--   Ring: Valid (invariant), Queue (the abstract queue), Refine (contents), Keep (histories)
--   Syt: Schedule (when packets are due), Period (the long-run rate)
--   Cip: Handler, Transmitter, Processor (models), Loopback (one header at the
--     receiver), Timing (when packets are due), Drift (against the sample rate), Counter (block counters)
--   Provider: Calls (one push, one packet), Stream (sessions), Samples (a sample's way)
--   Receive: Slots, Dcl (the DCL program), Program and Cycle (its loops), Whole (its cycle)
--   Transport: Protocol; Monitoring: Timers; FwTime: Laws; Specifier: Laws
--   AmdtpTransmitter: Methods, Setup (models), Dma and Wire (what memory holds and
--     the packets carry), Group and Flow (a completion
--     callback), Ready, Opening, Session and Running (from initialize
--     to a stream), Stops
--   PortChannel: Setup (model), Balance and History (what is released), Leak, Channels (the mask)
--   Transmit: Buffers, Dcl, Updates (models), Slots (places), Cycle (settings of one DCL), Packets
--     and Loops (createDCLProgram), Whole (the cycle), Segments (updates), Refusal (errors)
--   Access: Commands (the methods), Serve and Whole (reading), Writes (writing)
--   StreamFormat: Query (model), RoundTrip (writing and reading), Listing (the supported formats)
--   InfoBlock: Fields, Print (models), Content (the bytes of the fields),
--     RoundTrip (what is sent is read), Tile (the nested area's bytes)
--   Shm: Refine (what a stored chunk changes), Fifo (push and pop)
--
-- How state is modelled. A method that changes its object returns the new object beside its result.
-- Machine integers are numbers with their wrap-around written out where a value can reach it. Calls of
-- IOKit, CoreFoundation and the virtual memory system are arguments: their replies for the transport,
-- timer creation for the monitor, the allocator and the page size for the buffers, the replies and
-- objects of the framework for the ports, the pool's and the port's replies for the DCL programs, and
-- the command transport for descriptors and formats. Each call of
-- the byte ring is one step; the memory model of its two threads is not modelled. The same
-- holds of the shared ring.
--
-- Bounds. The search for a power of two tries the 31 exponents below 2^31, which is enough for every
-- size up to 2^31. The wait for the finalize callback is the source's own loop of 100 cycles. The info blocks are
-- parsed on fuel, of which the constructor takes one more than the bytes of the data: a nested area is
-- at least six bytes shorter than its block. Reading a descriptor is the source's own loop of
-- 1024 attempts, and the query for formats its own 17 indices. All other loops are structural.
--
-- Not modelled: logging, float conversion of samples, the clock PLL (floating point), the
-- managers that join the parts of the receiving side, the older descriptor reader and the device
-- parsers, discovery and command transport (IOKit), the C API, the driver and daemon, the Swift application.
pub mod Prelude
pub mod Ring
pub mod Syt
pub mod Cip
pub mod FwTime
pub mod Provider
pub mod Specifier
pub mod Receive
pub mod Transport
pub mod Monitoring
pub mod Shm
pub mod InfoBlock
pub mod Transmit
pub mod Access
pub mod StreamFormat
pub mod PortChannel
pub mod AmdtpTransmitter
