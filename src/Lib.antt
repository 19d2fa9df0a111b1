-- ===== src/Lib.antt =====
-- UnaOS: the UnaFS file system, the network crate, the queues and the PCI scan of the kernel, the
-- parser of raw images, the audio engine and the index of crates, as functions with proofs.
--
-- The files follow the crates.
--   Prelude            native numbers as indices, lists, bytes, single bits, byte strings, maps, and
--                      the monads: Exec (a fallible operation on a state), Outcome (code that may
--                      panic), Checked (code that may fail or panic) and State (code that always
--                      returns, and its loops).
--   Unafs              libs/unafs/src. Storage (storage.rs: the trait BlockDevice, MemDevice; the
--                      contract IsDisk is what the other parts rely on), Bitmap (bitmap.rs), Hash
--                      (hash.rs), Inode (inode.rs), Superblock (superblock.rs), Catalog (catalog.rs),
--                      Wal (wal.rs), Query (query.rs), Fs (fs.rs).
--   Unafs/Fs           Fs.antt has the state UnaFS and the operations on inodes; Mounted has the
--                      invariant of a mounted file system and what the steps keep of it; Inodes is
--                      about reading and writing inodes; Format has format and mount, Data has
--                      write_data and read_data, Dirs has ls, mkdir, create_file and resolve_path,
--                      Attributes has set_attribute and get_attribute, Search has query.
--   Net                unaos/crates/net/src. Ethernet (ethernet.rs), Arp (arp.rs), Ipv4 (ipv4.rs),
--                      Ingress (lib.rs).
--   Kernel             unaos/crates/kernel/src: the parts that compute. Xhci (the rings of xhci/),
--                      Events (events.rs), Frames (memory.rs), Pci (pci.rs: Access has the
--                      accesses, Answers what the scans are to answer, Scan the scans, Command the
--                      writes of the command register). The I/O ports are a parameter.
--   Lux                libs/lux/src/parser.rs. Tiff (the directories, up to the strip of raw bytes), Bayer
--                      (the samples and their decoding), Demosaic (the interpolation), Arw (parse_arw).
--   Elessar            libs/elessar/src. detect_spline (lib.rs), Indexer (context/indexer.rs: the parser of
--                      a Cargo.toml; Sections says what a section lists).
--   Resonance          libs/resonance/src. Graph (graph.rs), Nodes (nodes/mixer.rs and gain.rs),
--                      Audio (audio.rs: the callback).
--   Unafs/Tests, Net/Tests, Kernel/Tests, Kernel/Pci/Tests, Lux/Tests,
--   Resonance/Tests, Resonance/Audio/Tests, Elessar/Indexer/Tests
--                      the theorems applied to concrete disks, packets, queues, machines, files
--                      and graphs.
--
-- How they interact. UnaFS owns a device, a superblock, a bitmap and a journal. A new file takes a
-- block from the bitmap, is written as an inode, and then sync_metadata writes the bitmap and the
-- superblock; the journal brackets the operation. The router ingress reads a frame's type and hands
-- the payload to the ARP state machine or to the IPv4 parser. A query string is parsed, the catalog is
-- searched for candidates, and each is read and tested. parse_arw locates a strip, decodes it and
-- interpolates it. A round of the audio graph hands every node the buffers of its sources.
--
-- State. The mutable borrow of the source is a state that each operation takes and gives back: Exec
-- gives it back beside an error too, since what was written before the error stays written. Names
-- are those of the source in lower case; a loop of the source is a function of its own (claim for the
-- loop of allocate, scan for check_recovery, write_loop for write_data, and so on), and the branch of
-- a function that is too long for one definition is a helper by clauses.
--
-- Numbers are natural numbers. Where the source computes with u64 and the sum stays within what a
-- disk can hold (block numbers, offsets in a file), the sum is not reduced; the byte offsets of
-- MemDevice and the end of a journal entry, which come from the disk, are reduced modulo 2^64, and
-- the checksum and the number of pixels modulo 2^32, as the release profile does. An i64 or a float
-- is its bit pattern. A string is the list of its UTF-8 bytes, a BTreeMap a list of pairs in key
-- order, a HashSet the list of its elements.
--
-- Parameters. bincode is not part of this repository: a Codec gives serialize and deserialize for a
-- type, and IsRoundTrip says that what was written is read back, with later bytes ignored. Device
-- errors and other devices are the instances of BlockDevice. Floats are records of operations:
-- those of a query on bit patterns, those of the demosaic and of the nodes on a type of their own.
-- Parsing a float is a parameter too. The nodes of the graph are a type with the operations of the
-- trait AudioNode. The I/O ports of the machine are a record of operations; HasMechanism says how
-- the PCI bus answers reads at them, and HasCommand which bits of its command register a function
-- that is there implements. The commands that wait for the audio callback are a part of its
-- state, and of a directory it is a parameter which of the files that mark a project it has.
--
-- Fuel. log calls itself at most once for an entry that fits a block, so two calls are enough; for
-- a longer one no number is. check_recovery moves on by a byte in each round, so one more round
-- than the journal has bytes is enough. The loops of write_data, read_from_extents and
-- allocate_and_write_extents take a byte at least in each round. The carry loop of the checksum
-- makes its sum smaller, so the sum itself is fuel enough. save_chunks writes a byte at least per
-- chunk. A block of samples decodes a pixel at least, so as many rounds as there are pixels are
-- enough; a text is split at no more places than it has bytes. A chunk of the callback's buffer has
-- a sample at least.
--
-- Not modelled: FileDevice and every print to the console (input and output), the allocations of
-- the image parser, spaces outside ASCII, the broadcast over bandy, the choice of the sound device,
-- the oscillator and the transform, the scan of the directories, the controller and the interrupts
-- of the kernel, and the graphical and networked parts of the workspace.
pub mod Prelude
pub mod Unafs
pub mod Net
pub mod Kernel
pub mod Lux
pub mod Resonance
pub mod Elessar
