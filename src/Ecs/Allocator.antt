-- ===== src/Ecs/Allocator.antt =====
-- `EntityAllocator` of src/sc/ecs/entity.hpp. An operation of a thread is one step: the pages and areas
-- are made under `m_pageMutex`, a share belongs to one thread or is used under `m_sharedMutex`, and a
-- chunk is taken with one `fetch_sub`. The tables are functions; `generations` stands for the blocks,
-- which are made with the first page that lies in them.
pub mod Weights
pub mod Invariant
pub mod Making
pub mod Tables
pub mod Creating
pub mod Full
pub mod Destroying
pub mod Starts
pub mod Lifetimes
pub mod Alive
mod Tests
use structured_chaos.Prelude.{
  ℕ, zero, suc, ◌+◌, ◌-◌, ◌*◌, ◌/◌, ◌%◌, ◌^◌, Bool, true, false, ◌&&◌, List, [], ◌∷◌, ◌++◌, reverse,
  Option, none, some, ◌==◌, ltb, leb, if◌then◌else◌, length, write,
}
use structured_chaos.Ecs.Entity.{index_of, generation_of, make_entity, page_of, page_size}
use structured_chaos.Ecs.FreeList.{FreeList, empty_list, take_chunk, give}

abbrev pub max_threads : ℕ
max_threads = 128

abbrev pub page_number_bits : ℕ
page_number_bits = 20

-- `PAGE_COUNT`: all pages but the last one.
abbrev pub page_count_limit : ℕ
page_count_limit = 2 ^ 20 - 1

abbrev pub area_limit : ℕ
area_limit = 0xFFFF

-- `Share`. `held` are the indices left of the chunk, the next one to hand out first.
pub record Share : Type 0 where
  pub next : ℕ
  pub end : ℕ
  pub held : List ℕ

abbrev pub empty_share : Share
empty_share = record { next = 0; end = 0; held = [] }

-- `Area`
pub record Area : Type 0 where
  pub cursor : ℕ
  pub free : FreeList
  pub shares : ℕ → Share

abbrev pub new_area : ℕ → Area
new_area start = record { cursor = start; free = empty_list; shares = λ _. empty_share }

-- `EntityAllocator`: `order` are the pages in the order they were handed out, `m_pageCount` is its
-- length.
pub record Allocator : Type 0 where
  pub page_limit : ℕ
  pub start_shift : ℕ
  pub owners : ℕ → ℕ
  pub generations : ℕ → ℕ
  pub order : List ℕ
  pub areas : ℕ → Option Area
  pub area_count : ℕ

-- The loop of `startOf`, from the bit on: every bit of the result is set at most once, so `|=` adds.
unfoldable pub reverse_bits : ℕ → ℕ → ℕ → ℕ
reverse_bits zero bit area = 0
reverse_bits (suc rest) bit area = area / 2 ^ bit % 2 * 2 ^ rest + reverse_bits rest (suc bit) area

-- `startOf`
unfoldable pub start_of : ℕ → ℕ
unfolding reverse_bits
start_of area =
    let page = reverse_bits page_number_bits 0 area in if ltb page page_count_limit then page else 0

-- The constructor.
unfoldable pub init : ℕ → Allocator
unfolding start_of
init page_bits = record {
  page_limit = if leb page_number_bits page_bits then page_count_limit else 2 ^ page_bits;
  start_shift = if leb page_number_bits page_bits then 0 else page_number_bits - page_bits;
  owners = λ _. 0;
  generations = λ _. 0;
  order = [];
  areas = write (λ _. none) 0 (some (new_area (start_of 0)));
  area_count = 1;
}

-- `page + 1 < m_pageLimit ? page + 1 : 0`
abbrev pub next_page : ℕ → ℕ → ℕ
next_page limit page = if ltb (page + 1) limit then page + 1 else 0

-- The loop of `makePage` that looks for a free page.
unfoldable pub find_page : ℕ → (ℕ → ℕ) → ℕ → ℕ → Option ℕ
find_page limit owners zero page = none
find_page limit owners (suc tries) page =
    let rest = find_page limit owners tries (next_page limit page) in
    if owners page == 0 then some page else rest

-- `memset` of the generations of a page.
abbrev pub zero_page : (ℕ → ℕ) → ℕ → ℕ → ℕ
zero_page generations page i = if page_of i == page then 0 else generations i

-- `makePage` for the page that was found: the tables, with the cursor of the area moved on.
abbrev pub hand_out : ℕ → ℕ → Area → Allocator → Area × Allocator
hand_out page number area s = (
  record area { cursor = next_page s.page_limit page },
  record s {
    generations = zero_page s.generations page;
    order = s.order ++ (page ∷ []);
    owners = write s.owners page ((number + 1) % 2 ^ 16);
  },
)

-- `std::length_error` and `std::out_of_range`
pub data Created : Type 0 where
  created : ℕ → Created
  no_index_left : Created
  no_such_area : Created

-- The place of a thread in `shares`, see `withShare`.
abbrev pub share_of : ℕ → ℕ
share_of thread = if ltb thread max_threads then thread else max_threads

-- Writes the area, with the share of the thread, back into the table.
abbrev pub store : ℕ → ℕ → Share → Area → Allocator → Allocator
store number thread share area s = record s {
  areas =
      write s.areas number
        (some (record area { shares = write area.shares (share_of thread) share }));
}

-- The indices of a chunk from its back: `indices[--left]`.
unfoldable pub from_chunk : ℕ → ℕ → List ℕ → Area → Share → Allocator → Created × Allocator
from_chunk number thread [] area share s = (no_index_left, s)
from_chunk number thread (i ∷ rest) area share s = (
  created (make_entity i (s.generations i)),
  store number thread (record share { held = rest }) area s,
)

-- The next index of the page of the share: `share.next++`.
abbrev pub from_page : ℕ → ℕ → Area → Share → Allocator → Created × Allocator
from_page number thread area share s = (
  created (make_entity share.next 0),
  store number thread (record share { next = share.next + 1 }) area s,
)

-- The share has no page left: `startPage`, then its first index.
unfoldable pub from_new_page : ℕ → ℕ → Area → Share → Allocator → Created × Allocator
from_new_page number thread area share s =
    elim (find_page s.page_limit s.owners s.page_limit area.cursor) [
      | none ↦ (no_index_left, s)
      | some page ↦
          let made = hand_out page number area s in
          from_page number thread made.0
            (record share { next = page * page_size; end = page * page_size + page_size }) made.1
    ]

-- `create(Area &, area)`
unfoldable pub create_held : ℕ → ℕ → List ℕ → Area → Share → Allocator → Created × Allocator
unfolding from_chunk from_new_page
create_held number thread (i ∷ rest) area share s = from_chunk number thread (i ∷ rest) area share s
create_held number thread [] area share s = elim (take_chunk area.free) [
  | some (chunk, free) ↦
      from_chunk number thread (reverse chunk) (record area { free = free }) share s
  | none ↦
      let more = from_new_page number thread area share s in
      if share.next == share.end then more else from_page number thread area share s
]

-- `makeArea`
abbrev pub make_area : ℕ → Allocator → Area × Allocator
make_area number s =
    let made = new_area (start_of number / 2 ^ s.start_shift) in
    (
      made,
      record s {
        areas = write s.areas number (some made);
        area_count = if leb s.area_count number then number + 1 else s.area_count;
      },
    )

-- `area`, for a number below AREA_LIMIT
unfoldable pub get_area : ℕ → Allocator → Area × Allocator
get_area number s = elim (s.areas number) [ some a ↦ (a, s) | none ↦ make_area number s ]

-- `create(area)`, by a thread
unfoldable pub create : ℕ → ℕ → Allocator → Created × Allocator
unfolding create_held get_area
create thread number s =
    let found = get_area number s in
    let share = found.0.shares (share_of thread) in
    if leb area_limit number
    then (no_such_area, s)
    else create_held number thread share.held found.0 share found.1

-- `find`: the owner of the page of an entity that exists, 0 for one that does not.
unfoldable pub find : ℕ → Allocator → ℕ
find entity s =
    let index = index_of entity in
    if s.owners (page_of index) == 0
    then 0
    else if s.generations index == generation_of entity
    then s.owners (page_of index)
    else 0

-- `valid`
unfoldable pub valid : ℕ → Allocator → Bool
unfolding find
valid entity s = if find entity s == 0 then false else true

-- `destroy`
unfoldable pub destroy : ℕ → Allocator → Allocator
destroy entity s =
    let index = index_of entity in
    let number = s.owners (page_of index) - 1 in
    record s {
      generations = write s.generations index ((s.generations index + 1) % 2 ^ 32);
      areas = elim (s.areas number) [
        | none ↦ s.areas
        | some area ↦ write s.areas number (some (record area { free = give index area.free }))
      ];
    }
