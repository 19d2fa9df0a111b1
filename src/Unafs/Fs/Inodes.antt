-- ===== src/Unafs/Fs/Inodes.antt =====
-- Writing an inode and reading it back.
use una_os.Prelude.{
  ℕ, ◌-◌, ◌≤◌, ◌<◌, ◌≡◌, ◌≢◌, ◌⊎◌, refl, ap, ◌∙◌, arith, inl, inr, Option-cases, some,
}
use una_os.Prelude.{List, length, replicate}
use una_os.Prelude.Exec.{Result-cases, ok, err}
use una_os.Unafs.Storage.{BlockDevice, block_size, padded, padded_lem, length-padded}
use una_os.Unafs.Storage.Disk.{IsDisk}
use una_os.Unafs.Codec.{Codec, IsRoundTrip, DoesNotFit}
use una_os.Unafs.Inode.{Inode, InodeError, to_bytes, from_bytes}
use una_os.Unafs.Fs.{UnaFs, Codecs, inode, read_inode, write_inode}
use una_os.Unafs.Fs.Mounted.{IsMounted}

to_bytes-cases :
    (codec : Codec Inode) (node : Inode) (bytes : List ℕ)
    → to_bytes codec node ≡ ok bytes
    → (codec.serialize node ≡ some bytes) × (length bytes ≤ block_size)
unfolding to_bytes
to_bytes-cases codec node bytes e = elim (Option-cases (codec.serialize node)) [
  | inl bad ↦ absurd (ground arith)
  | inr (written, w) ↦ let same : written ≡ bytes = ground arith in (w ∙ ap some same, ground arith)
]

to_bytes-DoesNotFit :
    (codec : Codec Inode) (node : Inode) (e : InodeError)
    → to_bytes codec node ≡ err e
    → DoesNotFit (codec.serialize node)
unfolding to_bytes
to_bytes-DoesNotFit codec node e h = elim (Option-cases (codec.serialize node)) [
  | inl bad ↦ rw bad tt
  | inr (written, w) ↦ rw w (ground arith)
]

from_bytes-padded :
    (codec : Codec Inode) (node : Inode) (bytes : List ℕ)
    → IsRoundTrip codec
    → codec.serialize node ≡ some bytes
    → from_bytes codec (padded bytes) ≡ ok node
unfolding from_bytes
from_bytes-padded codec node bytes trip w =
    rw (padded_lem bytes)
      (rw (trip.reads_back node bytes (replicate (block_size - length bytes) 0) w, from_bytes) refl)

module _ {D : Type 0} ⦃dev : BlockDevice D⦄ (size : ℕ) (Good : D → Type 0) (block : D → ℕ → List ℕ)
    (disk : IsDisk size Good block) where
  -- The state after an inode was written: its block holds it, nothing else has changed.
  pub record Written (codec : Codec Inode) (s : UnaFs D) (node : Inode) (s' : UnaFs D)
      : Type 0 where
    pub mounted : IsMounted size Good block disk s'
    pub superblock : s'.superblock ≡ s.superblock
    pub bitmap : s'.bitmap ≡ s.bitmap
    pub bytes : List ℕ
    pub serialized : codec.serialize node ≡ some bytes
    pub here : block s'.device node.id ≡ padded bytes
    pub others : (j : ℕ) → j < size → node.id ≢ j → block s'.device j ≡ block s.device j

  pub write_inode-Written :
      (c : Codecs) (node : Inode) (s : UnaFs D)
      → IsMounted size Good block disk s
      → node.id < size
      → ((e : InodeError) × (write_inode c node s ≡ (err (inode e), s))
          × DoesNotFit (c.inode.serialize node))
        ⊎ ((s' : UnaFs D) × (write_inode c node s ≡ (ok tt, s')) × Written c.inode s node s')
  unfolding write_inode
  write_inode-Written c node s m inside = elim (Result-cases (to_bytes c.inode node)) [
    | inr (e, bad) ↦ inl (e, rw bad refl, to_bytes-DoesNotFit c.inode node e bad)
    | inl (bytes, fine) ↦
        let (serialized, small) = to_bytes-cases c.inode node bytes fine in
        let (d, wrote, good, content) =
          disk.write s.device node.id (padded bytes) m.good inside (length-padded bytes small) in
        inr (
          record s { device = d },
          rw fine (rw wrote refl),
          record {
            mounted = record {
              good = good;
              valid = m.valid;
              in_disk = m.in_disk;
              behind_super = m.behind_super;
              room = m.room;
              system = m.system;
            };
            superblock = refl;
            bitmap = refl;
            bytes = bytes;
            serialized = serialized;
            here = ground (arith, content node.id inside);
            others = λ j lt ne. ground (arith, content j lt);
          },
        )
  ]

  -- An inode that stands in its block is read.
  pub read_inode-here :
      (c : Codecs) (node : Inode) (id : ℕ) (bytes : List ℕ) (s : UnaFs D)
      → IsRoundTrip c.inode
      → Good s.device
      → id < size
      → c.inode.serialize node ≡ some bytes
      → block s.device id ≡ padded bytes
      → read_inode c id s ≡ (ok node, s)
  unfolding read_inode
  read_inode-here c node id bytes s trip good inside serialized here =
      let read : from_bytes c.inode (block s.device id) ≡ ok node =
        rw here (from_bytes-padded c.inode node bytes trip serialized) in
      rw (disk.read s.device id good inside) (rw read refl)

  -- On a mounted disk, an inode in range is written, or it is refused, nothing changes and it does not
  -- serialise into a block; if it is written, `read_inode` returns it, and every other block is as before.
  pub read_inode-write_inode :
      (c : Codecs)
      → IsRoundTrip c.inode
      → (node : Inode) (s : UnaFs D) → IsMounted size Good block disk s
      → node.id < size
      → ((e : InodeError) × (write_inode c node s ≡ (err (inode e), s))
          × DoesNotFit (c.inode.serialize node))
        ⊎ ((s' : UnaFs D) × (write_inode c node s ≡ (ok tt, s'))
            × (read_inode c node.id s' ≡ (ok node, s'))
            × ((j : ℕ) → j < size → node.id ≢ j → block s'.device j ≡ block s.device j))
  read_inode-write_inode c trip node s m inside = elim (write_inode-Written c node s m inside) [
    | inl failed ↦ inl failed
    | inr (s', done, w) ↦ inr (
      s',
      done,
      read_inode-here c node node.id w.bytes s' trip w.mounted.good inside w.serialized w.here,
      w.others,
    )
  ]
