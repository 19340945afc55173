-- ===== src/Receive/Slots.antt =====
-- Where the receiver's slots lie.
use fire_wire_audio.Prelude.{
  ℕ, suc, ◌+◌, ◌*◌, ◌%◌, ◌^◌, ◌≤◌, ◌<◌, ◌≡◌, ◌⊎◌, refl, sym, true, false, Option, none, some, arith,
  if◌then◌else◌,
}
use fire_wire_audio.Prelude.Expected.{value, unexpected, bad_argument, no_memory, not_ready}
use fire_wire_audio.Prelude.Layout.{page_align-le, index_bound, Within, exact_product, place_bound}
use mathlib.Core.Path.{subst}
use fire_wire_audio.Receive.{
  Config, BufferManager, cleanup, calculate_buffer_layout, place_areas, has_zero, setup_buffers,
  checked, global_packet_index, get_packet_timestamp_ptr, get_packet_isoch_header_ptr,
  get_packet_cip_header_ptr, get_packet_data_ptr,
}

-- A configuration whose counts and payload fit the 32 bits of their products.
pub record IsFitting (c : Config) : Type 0 where
  pub some_groups : 0 < c.num_groups
  pub some_packets : 0 < c.packets_per_group
  pub some_payload : 0 < c.packet_data_size
  pub packets_in : c.num_groups * c.packets_per_group < 2 ^ 32
  pub payload_in : c.num_groups * c.packets_per_group * c.packet_data_size < 2 ^ 32

-- The manager with its layout computed, before the allocation.
abbrev pub laid_out : ℕ → BufferManager → Config → BufferManager
laid_out page m c = calculate_buffer_layout page (record ((cleanup m).1) { config = c })

-- The manager after an allocation at `a`.
abbrev pub placed : ℕ → BufferManager → Config → ℕ → BufferManager
placed page m c a = place_areas (laid_out page m c) a

fitting-has_zero : (c : Config) → IsFitting c → has_zero c ≡ false
unfolding has_zero
fitting-has_zero c v = ground (arith, v.some_groups, v.some_packets, v.some_payload)

freed_lem :
    (m : BufferManager)
    → (cleanup m).0
      ≡ elim m.main_buffer [ none ↦ none | some old ↦ some (old, m.total_buffer_size) ]
unfolding cleanup
freed_lem m = ground arith

-- A fitting configuration that gets its memory is set up, and the memory of the setup before it is
-- given back first, once and with its own size.
pub setup_succeeds :
    (page a : ℕ) (vm_allocate : ℕ → Option ℕ) (m : BufferManager) (c : Config)
    → IsFitting c
    → vm_allocate (laid_out page m c).total_buffer_size ≡ some a
    → let s = setup_buffers page vm_allocate m c in
      (s.result ≡ value tt)
      × (s.freed
          ≡ (elim m.main_buffer [ none ↦ none | some old ↦ some (old, m.total_buffer_size) ]))
      × (s.manager ≡ placed page m c a)
unfolding setup_buffers cleanup
setup_succeeds page a vm_allocate m c v got =
    rw (fitting-has_zero c v, got) (refl, freed_lem m, refl)

checked_in :
    (m : BufferManager) (a g p ptr : ℕ)
    → m.main_buffer ≡ some a
    → g < m.config.num_groups
    → p < m.config.packets_per_group
    → checked m g p ptr ≡ value ptr
unfolding checked
checked_in m a g p ptr e hg hp = ground arith

-- The slot of a getter whose checks pass, the index and the area's size being exact.
slot :
    (m : BufferManager) (a g p base i n size offset high : ℕ)
    → m.main_buffer ≡ some a
    → g < m.config.num_groups
    → p < m.config.packets_per_group
    → suc i ≤ n
    → offset ≡ i * size
    → base + n * size ≤ high
    → Within (checked m g p (base + offset)) base size high
unfolding Within
slot m a g p base i n size offset high e hg hp hi ho hh = (
  base + offset,
  checked_in m a g p (base + offset) e hg hp,
  omega arith,
  omega (arith, place_bound i n size hi),
)

-- The slot of any packet of a placed manager.
placed_slots :
    (k a : ℕ) (m : BufferManager) (c : Config) (g p : ℕ)
    → IsFitting c
    → g < c.num_groups
    → p < c.packets_per_group
    → let m' = placed (2 ^ k) m c a in
      Within (get_packet_isoch_header_ptr m' g p) a 4 m'.cip_header_area
      × Within (get_packet_cip_header_ptr m' g p) m'.cip_header_area 8 m'.packet_data_area
      × Within (get_packet_data_ptr m' g p) m'.packet_data_area c.packet_data_size m'.timestamp_area
      × Within (get_packet_timestamp_ptr m' g p) m'.timestamp_area 4 (a + m'.total_buffer_size)
unfolding place_areas calculate_buffer_layout get_packet_isoch_header_ptr get_packet_cip_header_ptr
    get_packet_data_ptr get_packet_timestamp_ptr global_packet_index
placed_slots k a m c g p v hg hp = (
  slot m' a g p _ i n 4 _ _ refl hg hp hi (omega (arith, index)) (omega arith),
  slot m' a g p _ i n 8 _ _ refl hg hp hi (omega (arith, index)) (omega arith),
  slot m' a g p _ i n c.packet_data_size _ _ refl hg hp hi exact (omega (arith, whole)),
  slot m' a g p _ i n 4 _ _ refl hg hp hi (omega (arith, index)) (
      omega (
        arith,
        page_align-le k (
            n % 2 ^ 32 * 4
            + n % 2 ^ 32 * 8
            + n % 2 ^ 32 * c.packet_data_size % 2 ^ 32
            + n % 2 ^ 32 * 4),
      )),
)
  where
    m' : BufferManager
    m' = placed (2 ^ k) m c a

    i : ℕ
    i = g * c.packets_per_group + p

    n : ℕ
    n = c.num_groups * c.packets_per_group

    hi : suc i ≤ n
    hi = index_bound c.num_groups c.packets_per_group g p hg hp

    index : i % 2 ^ 32 ≡ i
    index = omega (arith, v.packets_in, hi)

    exact : i % 2 ^ 32 * c.packet_data_size % 2 ^ 32 ≡ i * c.packet_data_size
    exact = exact_product i n c.packet_data_size (omega (arith, hi)) v.packets_in v.payload_in

    whole : n % 2 ^ 32 * c.packet_data_size % 2 ^ 32 ≡ n * c.packet_data_size
    whole = exact_product n n c.packet_data_size (omega arith) v.packets_in v.payload_in

-- After a setup of a fitting configuration that got its memory at `a`, every packet in range has
-- its four slots, each in its own area: the isoch headers, the CIP headers, the payloads and the
-- timestamps lie one after another inside the allocation, and no slot reaches into the next area
-- or past the end.
pub slots_inside :
    (k a : ℕ) (vm_allocate : ℕ → Option ℕ) (m : BufferManager) (c : Config) (g p : ℕ)
    → IsFitting c
    → vm_allocate (laid_out (2 ^ k) m c).total_buffer_size ≡ some a
    → g < c.num_groups
    → p < c.packets_per_group
    → let m' = (setup_buffers (2 ^ k) vm_allocate m c).manager in
      Within (get_packet_isoch_header_ptr m' g p) a 4 m'.cip_header_area
      × Within (get_packet_cip_header_ptr m' g p) m'.cip_header_area 8 m'.packet_data_area
      × Within (get_packet_data_ptr m' g p) m'.packet_data_area c.packet_data_size m'.timestamp_area
      × Within (get_packet_timestamp_ptr m' g p) m'.timestamp_area 4 (a + m'.total_buffer_size)
slots_inside k a vm_allocate m c g p v got hg hp =
    subst
      (λ m'.
        Within (get_packet_isoch_header_ptr m' g p) a 4 m'.cip_header_area
        × Within (get_packet_cip_header_ptr m' g p) m'.cip_header_area 8 m'.packet_data_area
        × Within (get_packet_data_ptr m' g p) m'.packet_data_area c.packet_data_size
            m'.timestamp_area
        × Within (get_packet_timestamp_ptr m' g p) m'.timestamp_area 4 (a + m'.total_buffer_size))
      (sym (setup_succeeds (2 ^ k) a vm_allocate m c v got).2) (placed_slots k a m c g p v hg hp)

-- In a fitting configuration, the payload slot of a later packet starts after the slot of an
-- earlier one ends.
pub slots_apart :
    (k a : ℕ) (m : BufferManager) (c : Config) (g p g' p' : ℕ)
    → IsFitting c
    → g < c.num_groups
    → p < c.packets_per_group
    → g' < c.num_groups
    → p' < c.packets_per_group
    → g * c.packets_per_group + p < g' * c.packets_per_group + p'
    → let m' = placed (2 ^ k) m c a in
      (s : ℕ) × (s' : ℕ) × (get_packet_data_ptr m' g p ≡ value s)
      × (get_packet_data_ptr m' g' p' ≡ value s')
      × (s + c.packet_data_size ≤ s')
unfolding place_areas calculate_buffer_layout get_packet_data_ptr global_packet_index
slots_apart k a m c g p g' p' v hg hp hg' hp' before = (
  _,
  _,
  checked_in m' a g p _ refl hg hp,
  checked_in m' a g' p' _ refl hg' hp',
  omega (
    arith,
    exact_product i n c.packet_data_size (omega (arith, bound)) v.packets_in v.payload_in,
    exact_product j n c.packet_data_size (omega (arith, bound')) v.packets_in v.payload_in,
    place_bound i j c.packet_data_size before,
  ),
)
  where
    m' : BufferManager
    m' = placed (2 ^ k) m c a

    i : ℕ
    i = g * c.packets_per_group + p

    j : ℕ
    j = g' * c.packets_per_group + p'

    n : ℕ
    n = c.num_groups * c.packets_per_group

    bound : suc i ≤ n
    bound = index_bound c.num_groups c.packets_per_group g p hg hp

    bound' : suc j ≤ n
    bound' = index_bound c.num_groups c.packets_per_group g' p' hg' hp'

cleaned : (m : BufferManager) → (cleanup m).1.main_buffer ≡ none
unfolding cleanup
cleaned m = ground arith

-- A setup with a zero in its configuration, or without memory, reports which, and leaves a
-- manager whose payload and timestamp getters are not ready; what was allocated before is given
-- back all the same.
pub setup_fails :
    (page : ℕ) (vm_allocate : ℕ → Option ℕ) (m : BufferManager) (c : Config) (g p : ℕ)
    → (has_zero c ≡ true) ⊎ (vm_allocate (laid_out page m c).total_buffer_size ≡ none)
    → let s = setup_buffers page vm_allocate m c in
      (s.result ≡ unexpected (if has_zero c then bad_argument else no_memory))
      × (s.freed
          ≡ (elim m.main_buffer [ none ↦ none | some old ↦ some (old, m.total_buffer_size) ]))
      × (get_packet_data_ptr s.manager g p ≡ unexpected not_ready)
      × (get_packet_timestamp_ptr s.manager g p ≡ unexpected not_ready)
unfolding setup_buffers calculate_buffer_layout get_packet_data_ptr get_packet_timestamp_ptr checked
setup_fails page vm_allocate m c g p h = ground (arith, h, freed_lem m, cleaned m)
