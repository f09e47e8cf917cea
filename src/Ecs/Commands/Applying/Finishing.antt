-- ===== src/Ecs/Commands/Applying/Finishing.antt =====
-- Single steps of `CommandApplier` of scheduler.hpp against changes done at once.
use mathlib.Core.Path.{fun_ext}
use structured_chaos.Prelude.{
  ℕ, ◌≡◌, ◌≢◌, refl, sym, ap, ◌∙◌, true, false, not, ◌&&◌, Bool-cases, inl, inr, Option, none, some,
  Option-cases, List, [], ◌∷◌, ◌++◌, ◌==◌, if◌then◌else◌, if_rule, write, all-write, arith,
}
use structured_chaos.Ecs.Entity.{index_of, page_of}
use structured_chaos.Ecs.Commands.{Finish, erases, emplaces, modifies}
use structured_chaos.Ecs.Commands.Applying.{
  Setting, Removed, Columns, KillPage, Applying, slot_of, word_of, set_at, stash, kill, killed,
  without, flush, reserve, emplace_counted, finish,
}
use structured_chaos.Ecs.Commands.Applying.Spec.{do_finish, settled, KillsOk, more_kills}
use structured_chaos.Ecs.Commands.Applying.Killing.{without_more}

-- Nothing is gathered.
abbrev pub NoKills : (ℕ → KillPage) → Type 0
NoKills kills = (column slot : ℕ) → (kills column).bits slot ≡ false

without_none :
    (k : KillPage) (index : ℕ) (o : Option ℕ)
    → k.bits (slot_of index) ≡ false
    → without k index o ≡ o
unfolding killed
without_none k index o e = ground arith

pub settled_none : (s : Applying) → NoKills s.kills → settled s ≡ s.columns
settled_none s e =
    ap (λ (t : ℕ → ℕ → Option ℕ). record s.columns { table = t })
      (fun_ext
        (λ c. fun_ext (λ i. without_none (s.kills c) i (s.columns.table c i) (e c (slot_of i)))))

pub flush-NoKills : {number : ℕ} (s : Applying) → KillsOk number s.kills → NoKills (flush s).kills
unfolding flush
flush-NoKills s ok column slot = elim (Bool-cases ((s.kills column).bits slot)) [
  | inl set ↦ rw (ok.noted column slot set) refl
  | inr clear ↦ ground arith
]

pub NoKills-KillsOk : (number : ℕ) (kills : ℕ → KillPage) → NoKills kills → KillsOk number kills
NoKills-KillsOk number kills e = record {
  noted = λ c s h. absurd (ground (arith, e c s));
  same_page = λ c s h. absurd (ground (arith, e c s));
}

pub kill-KillsOk :
    (w : Setting) (number entity column : ℕ) (s : Applying)
    → KillsOk number s.kills
    → page_of (index_of entity) ≡ number
    → KillsOk number (kill w entity column s).kills
unfolding kill
kill-KillsOk w number entity column s ok here =
    let k = s.kills column in
    let more = more_kills (index_of entity) k in
    let slot = slot_of (index_of entity) in
    record {
      noted =
          all-write (λ c p. (x : ℕ) → p.bits x ≡ true → p.touched (word_of x) ≡ true) s.kills column
            more
            (λ x h. elim (Bool-cases (slot == x)) [
              | inl t ↦ ground arith
              | inr u ↦ let t = ok.noted column x (ground arith) in ground arith
            ])
            (λ c _ x h. ok.noted c x h);
      same_page =
          all-write (λ c p. (x : ℕ) → p.bits x ≡ true → p.number ≡ number) s.kills column more
            (λ x h. here) (λ c _ x h. ok.same_page c x h);
    }

set_at_same :
    (f : ℕ → ℕ → Option ℕ) (column index : ℕ) (a : Option ℕ)
    → f column index ≡ a
    → set_at f column index a ≡ f
set_at_same f column index a e = fun_ext (λ c. fun_ext (λ i. elim (Bool-cases (column == c)) [
  | inr o ↦ rw (o) refl
  | inl s ↦ elim (Bool-cases (index == i)) [
    | inr u ↦ let h : column ≡ c = ground arith in rw (s, u) (rw h refl)
    | inl t ↦
        let h : column ≡ c = ground arith in
        let k : index ≡ i = ground arith in rw (s, t) (sym (rw (← h, ← k) e))
  ]
]))

-- An erase that is done at once.
module _ (w : Setting) (entity column : ℕ) (d : Columns) where
  erase_none : d.table column (index_of entity) ≡ none → do_finish w erases entity column d ≡ d
  unfolding do_finish
  erase_none e = rw (do_finish, e) refl

  erase_some :
      {v : ℕ}
      → d.table column (index_of entity) ≡ some v
      → do_finish w erases entity column d ≡ record d {
        table = set_at d.table column (index_of entity) none;
        removed =
            if w.remove_hooked column
            then d.removed ++ (record { entity = entity; column = column; value = v } ∷ [])
            else d.removed;
      }
  unfolding do_finish
  erase_some e = elim (Bool-cases (w.remove_hooked column)) [
    | inl h ↦ rw (do_finish, e, h) refl
    | inr h ↦ rw (do_finish, e, h) refl
  ]

module _ (w : Setting) (number entity column : ℕ) (s : Applying) (ok : KillsOk number s.kills)
    (here : page_of (index_of entity) ≡ number) where
  -- The columns with one more erase gathered, and nothing moved out.
  abbrev lessened : List Removed → Columns
  lessened rs = record s.columns {
    table = set_at (settled s).table column (index_of entity) none;
    removed = rs;
  }

  kill-lessened :
      (rs : List Removed)
      → (if w.remove_hooked column && not ((s.kills column).bits (slot_of (index_of entity)))
          then stash entity column s.columns
          else s.columns)
        ≡ record s.columns { removed = rs }
      → settled (kill w entity column s) ≡ lessened rs
  unfolding kill
  kill-lessened rs e =
      let less = without_more s.columns.table (index_of entity) column ok here in
      ap
        (λ (d : Columns). record d {
          table = λ c i.
              without (write s.kills column (more_kills (index_of entity) (s.kills column)) c) i
                (d.table c i);
        })
        e
      ∙ ap (λ (t : ℕ → ℕ → Option ℕ). record s.columns { table = t; removed = rs }) less

  gone_already :
      (settled s).table column (index_of entity) ≡ none → lessened s.columns.removed ≡ settled s
  gone_already e =
      ap (λ (t : ℕ → ℕ → Option ℕ). record s.columns { table = t })
        (set_at_same (settled s).table column (index_of entity) none e)

  killed_set :
      (s.kills column).bits (slot_of (index_of entity)) ≡ true
      → killed (s.kills column) (index_of entity) ≡ true
  unfolding killed
  killed_set set =
      let t = ok.noted column (slot_of (index_of entity)) set in
      let p = ok.same_page column (slot_of (index_of entity)) set in ground arith

  -- A gathered erase leaves the columns, once the erases are done, as the erase done at once.
  pub settled-kill : settled (kill w entity column s) ≡ do_finish w erases entity column (settled s)
  unfolding stash
  settled-kill =
      let index = index_of entity in
      let k = s.kills column in
      elim (Bool-cases (k.bits (slot_of index))) [
        | inl set ↦
            let is_killed = killed_set set in
            let e : (settled s).table column index ≡ none = rw (is_killed) refl in
            kill-lessened s.columns.removed (elim (Bool-cases (w.remove_hooked column)) [
              | inl h ↦ rw (h, set) refl
              | inr h ↦ rw (h) refl
            ])
            ∙ gone_already e
            ∙ sym (erase_none w entity column (settled s) e)
        | inr clear ↦
            let same = without_none k index (s.columns.table column index) clear in
            elim (Option-cases (s.columns.table column index)) [
              | inl e ↦
                  kill-lessened s.columns.removed (elim (Bool-cases (w.remove_hooked column)) [
                    | inl h ↦ rw (h, clear, stash, e) refl
                    | inr h ↦ rw (h) refl
                  ])
                  ∙ gone_already (same ∙ e)
                  ∙ sym (erase_none w entity column (settled s) (same ∙ e))
              | inr (v, e) ↦
                  kill-lessened
                    (if w.remove_hooked column
                      then s.columns.removed
                        ++ (record { entity = entity; column = column; value = v } ∷ [])
                      else s.columns.removed)
                    (elim (Bool-cases (w.remove_hooked column)) [
                      | inl h ↦ rw (h, clear, stash, e) refl
                      | inr h ↦ rw (h) refl
                    ])
                  ∙ sym (erase_some w entity column (settled s) (same ∙ e))
            ]
      ]

module _ (w : Setting) (number step entity column : ℕ) where
  reserve_settled :
      (s : Applying)
      → ((reserve number step column s).columns ≡ s.columns)
        × ((reserve number step column s).kills ≡ s.kills)
  unfolding reserve
  reserve_settled s =
      if_rule (λ (r : Applying). (r.columns ≡ s.columns) × (r.kills ≡ s.kills))
        ((s.adds column).added == (s.adds column).counted) (λ _. (refl, refl)) (λ _. (refl, refl))

  emplace_settled :
      (v : ℕ) (s : Applying)
      → ((emplace_counted w entity column v s).columns
          ≡ do_finish w (emplaces false v) entity column s.columns)
        × ((emplace_counted w entity column v s).kills ≡ s.kills)
  unfolding emplace_counted do_finish
  emplace_settled v s = elim (Option-cases (s.columns.table column (index_of entity))) [
    | inl e ↦ (rw (emplace_counted, do_finish, e) refl, rw (emplace_counted, e) refl)
    | inr (old, e) ↦ (rw (emplace_counted, do_finish, e) refl, rw (emplace_counted, e) refl)
  ]

  reserved_settled :
      (v : ℕ) (s : Applying)
      → ((emplace_counted w entity column v (reserve number step column s)).columns
          ≡ do_finish w (emplaces false v) entity column s.columns)
        × ((emplace_counted w entity column v (reserve number step column s)).kills ≡ s.kills)
  reserved_settled v s =
      let r = reserve number step column s in
      let (c, k) = reserve_settled s in
      let (c', k') = emplace_settled v r in
      (c' ∙ ap (do_finish w (emplaces false v) entity column) c, k' ∙ k)

  -- With nothing gathered, what finishes a change does it at once.
  pub finish_settled :
      (f : Finish) (s : Applying)
      → f ≢ erases
      → ((finish w number step f entity column s).columns ≡ do_finish w f entity column s.columns)
        × ((finish w number step f entity column s).kills ≡ s.kills)
  unfolding finish do_finish
  finish_settled erases s n = absurd (n refl)
  finish_settled (emplaces false v) s n = reserved_settled v s
  finish_settled (emplaces true v) s n =
      elim (Option-cases (s.columns.table column (index_of entity))) [
        | inr (old, e) ↦ (rw (do_finish, e) refl, rw (e) refl)
        | inl e ↦
            let (c, k) = reserved_settled v s in (rw (e) (c ∙ rw (do_finish, e) refl), rw (e) k)
      ]
  finish_settled (modifies tracked f) s n =
      elim (Option-cases (s.columns.table column (index_of entity))) [
        | inl e ↦ (rw (finish, do_finish, e) refl, rw (finish, e) refl)
        | inr (old, e) ↦ (rw (finish, do_finish, e) refl, rw (finish, e) refl)
      ]
