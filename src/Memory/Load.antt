-- ===== src/Memory/Load.antt =====
-- What `init_from_uefi` of src/memory.rs leaves in the memory map.
use ventura_os.Base.{
  ℕ, zero, suc, ◌+◌, ◌*◌, ◌%◌, ◌^◌, ◌≤◌, ◌<◌, ◌≡◌, ◌↔◌, refl, Bool, true, false, ltb, leb, ◌&&◌,
  if◌then◌else◌, add64, arith, inl, inr, Bool-cases, ℕ_discrete,
}
use ventura_os.Memory.{
  descriptor_bytes, page_size, max_regions, EfiMemoryDescriptor, usable, MemoryRegion,
  PhysicalMemoryMap, Slice, classify, append_region, add_descriptor, read_descriptor, load_loop,
  init_from_uefi, size_bytes,
}

-- A region holds whole pages, ends below 2 ^ 64 and is usable exactly if its type says so.
pub record IsRegion (r : MemoryRegion) : Type 0 where
  pub nonempty : 0 < r.page_count
  pub ends : r.physical_end ≡ r.physical_start + r.page_count * page_size
  pub no_wrap : r.physical_end < 2 ^ 64
  pub typed : (r.is_usable ≡ true) ↔ (r.region_type ≡ usable)

-- The bytes of the first `n` regions, of all of them or of those with the given flag.
unfoldable pub sum_sizes : (ℕ → MemoryRegion) → ℕ → ℕ
unfolding size_bytes
sum_sizes regions zero = 0
sum_sizes regions (suc n) = sum_sizes regions n + size_bytes (regions n)

unfoldable pub sum_flagged : Bool → (ℕ → MemoryRegion) → ℕ → ℕ
unfolding size_bytes
sum_flagged true regions zero = 0
sum_flagged true regions (suc n) =
    sum_flagged true regions n + (if (regions n).is_usable then size_bytes (regions n) else 0)
sum_flagged false regions zero = 0
sum_flagged false regions (suc n) =
    sum_flagged false regions n + (if (regions n).is_usable then 0 else size_bytes (regions n))

-- The invariant of the loop, and the promise of `init_from_uefi`.
pub record IsLoaded (map : PhysicalMemoryMap) : Type 0 where
  pub bounded : map.region_count ≤ max_regions
  pub regions : (i : ℕ) → i < map.region_count → IsRegion (map.regions i)
  pub usable_sum : map.usable_memory_bytes ≡ sum_flagged true map.regions map.region_count % 2 ^ 64
  pub reserved_sum :
      map.reserved_memory_bytes ≡ sum_flagged false map.regions map.region_count % 2 ^ 64
  pub total_sum : map.total_memory_bytes ≡ sum_sizes map.regions map.region_count % 2 ^ 64

classify-usable : (t : ℕ) → ((classify t).1 ≡ true) ↔ ((classify t).0 ≡ usable)
unfolding classify
classify-usable t = ground arith

sum_sizes_ext :
    (f g : ℕ → MemoryRegion) (n : ℕ) → ((i : ℕ) → i < n → f i ≡ g i) → sum_sizes f n ≡ sum_sizes g n
unfolding sum_sizes
sum_sizes_ext f g zero h = refl
sum_sizes_ext f g (suc n) h = rw (h n (omega arith), sum_sizes_ext f g n (λ i p. h i (omega arith)))

sum_flagged_ext :
    (b : Bool) (f g : ℕ → MemoryRegion) (n : ℕ)
    → ((i : ℕ) → i < n → f i ≡ g i)
    → sum_flagged b f n ≡ sum_flagged b g n
unfolding sum_flagged
sum_flagged_ext true f g zero h = refl
sum_flagged_ext true f g (suc n) h =
    rw (h n (omega arith), sum_flagged_ext true f g n (λ i p. h i (omega arith)))
sum_flagged_ext false f g zero h = refl
sum_flagged_ext false f g (suc n) h =
    rw (h n (omega arith), sum_flagged_ext false f g n (λ i p. h i (omega arith)))

module _ (desc : EfiMemoryDescriptor) (map : PhysicalMemoryMap) (is : IsLoaded map) where
  abbrev bytes : ℕ
  bytes = desc.number_of_pages * page_size

  abbrev appended : PhysicalMemoryMap
  appended = append_region desc bytes (desc.physical_start + bytes) map

  unchanged : (i : ℕ) → i < map.region_count → appended.regions i ≡ map.regions i
  unfolding append_region
  unchanged i h = ground arith

  count-appended : appended.region_count ≡ suc map.region_count
  unfolding append_region
  count-appended = omega arith

  -- The region that is new.
  abbrev last : MemoryRegion
  last = appended.regions map.region_count

  last_fields :
      (last.physical_start ≡ desc.physical_start)
      × (last.physical_end ≡ desc.physical_start + bytes)
      × (last.page_count ≡ desc.number_of_pages)
      × (last.region_type ≡ (classify desc.memory_type).0)
      × (last.is_usable ≡ (classify desc.memory_type).1)
  unfolding append_region
  last_fields = ground arith

  size_bytes-last : size_bytes last ≡ bytes
  unfolding size_bytes
  size_bytes-last = omega (arith, last_fields)

  sum_sizes-appended :
      sum_sizes appended.regions appended.region_count
      ≡ sum_sizes map.regions map.region_count + bytes
  sum_sizes-appended = rw count-appended (
      unfold sum_sizes in
      omega (
        arith,
        size_bytes-last,
        sum_sizes_ext appended.regions map.regions map.region_count unchanged,
      ))

  IsRegion-last : 0 < desc.number_of_pages → desc.physical_start + bytes < 2 ^ 64 → IsRegion last
  IsRegion-last pos fits = record {
    nonempty = omega (arith, last_fields);
    ends = omega (arith, last_fields);
    no_wrap = omega (arith, last_fields);
    typed = rw (last_fields.3, last_fields.4) (classify-usable desc.memory_type);
  }

  appended-IsRegion :
      0 < desc.number_of_pages
      → desc.physical_start + bytes < 2 ^ 64
      → (i : ℕ) → i < appended.region_count
      → IsRegion (appended.regions i)
  appended-IsRegion pos fits i h = elim (ℕ_discrete i map.region_count) [
    | yes e ↦ rw e (IsRegion-last pos fits)
    | no ne ↦
        let below : i < map.region_count = omega (arith, count-appended) in
        rw (unchanged i below) (is.regions i below)
  ]

  usable_sum-appended :
      appended.usable_memory_bytes
      ≡ sum_flagged true appended.regions appended.region_count % 2 ^ 64
  usable_sum-appended = rw count-appended (
      unfold sum_flagged append_region in
      ground (
        arith,
        last_fields,
        size_bytes-last,
        is.usable_sum,
        sum_flagged_ext true appended.regions map.regions map.region_count unchanged,
      ))

  reserved_sum-appended :
      appended.reserved_memory_bytes
      ≡ sum_flagged false appended.regions appended.region_count % 2 ^ 64
  reserved_sum-appended = rw count-appended (
      unfold sum_flagged append_region in
      ground (
        arith,
        last_fields,
        size_bytes-last,
        is.reserved_sum,
        sum_flagged_ext false appended.regions map.regions map.region_count unchanged,
      ))

  append_region-IsLoaded :
      0 < desc.number_of_pages
      → desc.physical_start + bytes < 2 ^ 64
      → map.region_count < max_regions
      → IsLoaded appended
  append_region-IsLoaded pos fits room = record {
    bounded = unfold append_region in omega arith;
    regions = appended-IsRegion pos fits;
    usable_sum = usable_sum-appended;
    reserved_sum = reserved_sum-appended;
    total_sum = unfold append_region in omega (arith, sum_sizes-appended, is.total_sum);
  }

-- A descriptor that the loop keeps: it has pages, and neither its length nor its end overflows.
unfoldable pub accepted : EfiMemoryDescriptor → Bool
accepted desc =
    ltb 0 desc.number_of_pages
    && ltb (desc.physical_start + desc.number_of_pages * page_size) (2 ^ 64)

pub add_descriptor_lem :
    (desc : EfiMemoryDescriptor) (map : PhysicalMemoryMap)
    → add_descriptor desc map ≡ (
        if accepted desc
        then append_region desc
            (desc.number_of_pages * page_size)
            (desc.physical_start + desc.number_of_pages * page_size)
            map
        else map)
unfolding add_descriptor accepted
add_descriptor_lem desc map = ground arith

add_descriptor-IsLoaded :
    (desc : EfiMemoryDescriptor) (map : PhysicalMemoryMap)
    → map.region_count < max_regions
    → IsLoaded map
    → IsLoaded (add_descriptor desc map)
add_descriptor-IsLoaded desc map room is = elim (Bool-cases (accepted desc)) [
  | inl yes' ↦
      rw (add_descriptor_lem desc map, yes')
        (append_region-IsLoaded desc map is (unfold accepted in ground arith)
          (unfold accepted in ground arith) room)
  | inr no' ↦ rw (add_descriptor_lem desc map, no') is
]

load_loop-IsLoaded :
    (raw : Slice) (size left off : ℕ) (map : PhysicalMemoryMap)
    → IsLoaded map
    → IsLoaded (load_loop raw size left off map)
unfolding load_loop
load_loop-IsLoaded raw size zero off map is = is
load_loop-IsLoaded raw size (suc left) off map is =
    elim (Bool-cases (ltb raw.len (add64 off descriptor_bytes))) [
      | inl over ↦ rw over is
      | inr fits ↦ elim (Bool-cases (leb max_regions map.region_count)) [
        | inl full ↦ rw (fits, full) is
        | inr room ↦
            rw (fits, room)
              (load_loop-IsLoaded raw size left (add64 off size)
                (add_descriptor (read_descriptor raw off) map)
                (add_descriptor-IsLoaded (read_descriptor raw off) map (ground arith) is))
      ]
    ]

-- Whatever the firmware hands over, and whatever the map held before, `init_from_uefi` leaves at
-- most 128 regions, each of at least one whole page that ends below 2 ^ 64 without a wrap and is
-- usable exactly if its type is usable, and the total, usable and reserved byte counts are
-- the sums of the sizes of all, the usable and the other regions modulo 2 ^ 64.
pub init_from_uefi-IsLoaded :
    (raw : Slice) (size count : ℕ) (map : PhysicalMemoryMap)
    → IsLoaded (init_from_uefi raw size count map)
unfolding init_from_uefi
init_from_uefi-IsLoaded raw size count map = load_loop-IsLoaded raw size count 0 _ (record {
  bounded = omega arith;
  regions = λ i h. absurd (omega arith);
  usable_sum = unfold sum_flagged in refl;
  reserved_sum = unfold sum_flagged in refl;
  total_sum = unfold sum_sizes in refl;
})
