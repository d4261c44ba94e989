-- ===== src/Timer/Adding.antt =====
-- agc_timer_add_timer and agc_timer_del_timer of agc_timer.c on a sorted list of timers.
use common_framework.Base.{
  ℕ, ◌+◌, ◌%◌, ◌^◌, ◌<◌, ◌≡◌, refl, sym, ap, ◌∙◌, subst, inl, inr, Bool, true, false, ◌||◌, none,
  some, List, [], arith, ◌==◌, if◌then◌else◌, ==_refl, Bool-cases, All,
}
use common_framework.Timer.Tree.{
  Timer, insert_sorted, remove_event, has_event, Sorted, Fits, TreeOps,
}
use common_framework.Timer.Lists.{
  Distinct, All-insert_sorted, Sorted-insert_sorted, has_event-insert_sorted,
  Distinct-insert_sorted, All-remove_event, Sorted-remove_event, remove_event_missing,
  has_event-remove_event, Distinct-remove_event,
}
use common_framework.Timer.{milliseconds, State, init, del_timer, flag, insert_in, add_timer}

flag_or : (b t h r : Bool) → t ≡ h → r ≡ (if b then false else h) → (if b then true else t) ≡ b || r
flag_or true t h r e e' = refl
flag_or false t h r e e' = e ∙ sym e'

module _ (ops : TreeOps) where
  open ops use {
    Tree, empty, insert, delete, min, inorder, inorder-empty, inorder-insert, delete_there,
    delete_missing, min-inorder,
  }

  -- The list of timers, by their keys, that a state stands for.
  pub record Represents (st : State ops) (l : List Timer) : Type 0 where
    pub content : inorder st.tree ≡ l
    pub sorted : Sorted l
    pub distinct : Distinct l
    pub fits : All Fits l
    pub flags : (e : ℕ) → st.timer_set e ≡ has_event e l

  pub init-Represents : Represents (init ops) []
  unfolding init
  init-Represents = record {
    content = inorder-empty;
    sorted = tt;
    distinct = tt;
    fits = tt;
    flags = λ e. refl;
  }

  -- A tree without the event's timer, while the flags still have it.
  record Ready (event : ℕ) (st : State ops) (l : List Timer) : Type 0 where
    content : inorder st.tree ≡ remove_event event l
    flags : (e : ℕ) → st.timer_set e ≡ has_event e l

  insert_in-Represents :
      (event key : ℕ) (st : State ops) (l : List Timer)
      → Ready event st l
      → Sorted l
      → Distinct l
      → All Fits l
      → Fits (record { event = event; key = key })
      → (st' : State ops) × (insert_in ops event key (some st) ≡ some st')
        × Represents st'
            (insert_sorted (record { event = event; key = key }) (remove_event event l))
  insert_in-Represents event key st l ready sorted distinct fits fit =
      let x : Timer = record { event = event; key = key } in
      let sorted' = Sorted-remove_event event l sorted in
      let fits' = All-remove_event event Fits l fits in
      let distinct' = Distinct-remove_event event l distinct in
      let gone = has_event-remove_event event event l distinct in
      (
        record { tree = insert x st.tree; timer_set = flag ops event true st.timer_set },
        refl,
        record {
          content =
              inorder-insert x st.tree fit (subst (All Fits) (sym ready.content) fits')
                (subst Sorted (sym ready.content) sorted')
              ∙ ap (insert_sorted x) ready.content;
          sorted = Sorted-insert_sorted x (remove_event event l) sorted';
          distinct =
              Distinct-insert_sorted x (remove_event event l) (gone ∙ rw (==_refl event) refl)
                distinct';
          fits = All-insert_sorted x Fits (remove_event event l) fit fits';
          flags = λ e.
              flag_or (e == event) (st.timer_set e) (has_event e l)
                (has_event e (remove_event event l)) (ready.flags e)
                (has_event-remove_event event e l distinct)
              ∙ sym (has_event-insert_sorted x e (remove_event event l));
        },
      )

  del_before_add :
      (event : ℕ) (st : State ops) (l : List Timer)
      → Represents st l
      → (st' : State ops) × ((if st.timer_set event then del_timer ops event st else some st)
          ≡ some st')
        × Ready event st' l
  unfolding del_timer
  del_before_add event st l rep = elim (Bool-cases (st.timer_set event)) [
    | inl on ↦
        let there : has_event event (inorder st.tree) ≡ true =
          ap (has_event event) rep.content ∙ (sym (rep.flags event) ∙ on) in
        let (t', deleted, content) = delete_there event st.tree there in
        (
          record st { tree = t' },
          rw (on, deleted) refl,
          record { content = content ∙ ap (remove_event event) rep.content; flags = rep.flags },
        )
    | inr off ↦
        let missing : has_event event l ≡ false = sym (rep.flags event) ∙ off in
        (
          st,
          rw off refl,
          record {
            content = rep.content ∙ sym (remove_event_missing event l missing);
            flags = rep.flags;
          },
        )
  ]

  -- agc_timer_add_timer on a state that stands for a sorted list of timers: it never deletes a node that
  -- is not in the tree, and the state stands for that list with the event's timer, if it has one,
  -- taken out and one for the current time and the delay put behind those with no larger key. The
  -- keys stay below 2 ^ 63.
  pub add_timer-Represents :
      (now event timer : ℕ) (st : State ops) (l : List Timer)
      → Represents st l
      → milliseconds now + timer < 9223372036854775808
      → (st' : State ops) × (add_timer ops now event timer st ≡ some st')
        × Represents st' (
            insert_sorted
              (record { event = event; key = milliseconds now + timer })
              (remove_event event l))
  unfolding add_timer
  add_timer-Represents now event timer st l rep fits =
      let key : (milliseconds now + timer) % 2 ^ 64 ≡ milliseconds now + timer = omega arith in
      let (st1, ready_eq, ready) = del_before_add event st l rep in
      let (st', inserted, rep') =
        insert_in-Represents event (milliseconds now + timer) st1 l ready rep.sorted rep.distinct
          rep.fits fits in
      (
        st',
        ap
              (λ k.
                insert_in ops event k
                  (if st.timer_set event then del_timer ops event st else some st))
              key
            ∙ (ap (insert_in ops event _) ready_eq ∙ inserted),
        rep',
      )

  -- agc_timer_del_timer on an event with a timer deletes it but leaves the event's flag, so a later
  -- agc_timer_add_timer on the event deletes a node that is not in the tree.
  pub del_timer-add_timer :
      (now event timer : ℕ) (st : State ops) (l : List Timer)
      → Represents st l
      → has_event event l ≡ true
      → (st' : State ops) × (del_timer ops event st ≡ some st')
        × (inorder st'.tree ≡ remove_event event l)
        × (add_timer ops now event timer st' ≡ none)
  unfolding del_timer add_timer
  del_timer-add_timer now event timer st l rep there =
      let (t', deleted, content) =
        delete_there event st.tree (ap (has_event event) rep.content ∙ there) in
      let content' = content ∙ ap (remove_event event) rep.content in
      let gone : has_event event (inorder t') ≡ false =
        ap (has_event event) content'
        ∙ (has_event-remove_event event event l rep.distinct ∙ rw (==_refl event) refl) in
      let on : st.timer_set event ≡ true = rep.flags event ∙ there in
      (
        record st { tree = t' },
        rw deleted refl,
        content',
        rw (on, delete_missing event t' gone) refl,
      )
