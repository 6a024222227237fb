-- ===== src/Lists/Pointers.antt =====
-- code/lib/list.h and list.cc with the elements at their addresses: the pointers `first`, `last` and
-- `next` that Lists leaves out. The addresses that `new` returns are arguments.
pub mod Chain
pub mod Ends
pub mod Removal
pub mod Insertion
pub mod Sorted
mod Tests
use nachos.Base.{
  ℕ, zero, suc, ◌+◌, ◌-◌, ◌≡◌, Bool, true, false, not, Option, none, some, Outcome, done, aborted,
  ◌>>=◌, ◌>>◌, assert, ◌==◌, if◌then◌else◌,
}

pub record Element (T : Type 0) : Type 0 where
  pub item : T
  pub next : Option ℕ

-- A list, and what is at each address.
pub record PointerList (T : Type 0) : Type 0 where
  pub first : Option ℕ
  pub last : Option ℕ
  pub num_in_list : ℕ
  pub elements : ℕ → Element T

abbrev pub write : {T : Type 0} → (ℕ → Element T) → ℕ → Element T → ℕ → Element T
write elements a e = λ b. if b == a then e else elements b

abbrev pub same_pointer : Option ℕ → Option ℕ → Bool
same_pointer none none = true
same_pointer none (some b) = false
same_pointer (some a) none = false
same_pointer (some a) (some b) = a == b

module _ {T : Type 0} where
  -- `pointer->next = next`, which crashes if the pointer is NULL.
  unfoldable pub set_next : (ℕ → Element T) → Option ℕ → Option ℕ → Outcome (ℕ → Element T)
  set_next elements none next = aborted
  set_next elements (some a) next =
      done (write elements a (record { item = (elements a).item; next = next }))

  -- `RemoveFront`, from the assertion on, for the element that `first` points to.
  unfoldable pub take_first : PointerList T → Option ℕ → Outcome (T × PointerList T)
  take_first s none = aborted
  take_first s (some a) =
      let one_item = same_pointer s.first s.last in
      done (
        (s.elements a).item,
        record {
          first = if one_item then none else (s.elements a).next;
          last = if one_item then none else s.last;
          num_in_list = s.num_in_list - 1;
          elements = s.elements;
        },
      )

  unfoldable pub remove_front : PointerList T → Outcome (T × PointerList T)
  remove_front s = do assert (not (s.num_in_list == 0)); take_first s s.first

  -- The new element as the only one.
  unfoldable pub alone : PointerList T → ℕ → PointerList T
  alone s address = record s { first = some address; last = some address }

  -- `new ListElement<T>(item)` at `address`.
  unfoldable pub new_element : PointerList T → ℕ → T → PointerList T
  new_element s address item = record s {
    elements = write s.elements address (record { item = item; next = none });
  }

module _ {T : Type 0} (equal : T → T → Bool) where
  -- The loop of `IsInList`, for `rounds` elements at most.
  unfoldable pub in_from : (ℕ → Element T) → ℕ → Option ℕ → T → Outcome Bool
  in_from elements rounds none item = done false
  in_from elements zero (some a) item = aborted
  in_from elements (suc rounds) (some a) item =
      let later = in_from elements rounds (elements a).next item in
      if equal item (elements a).item then done true else later

  unfoldable pub is_in_list : PointerList T → T → Outcome Bool
  is_in_list s item = in_from s.elements s.num_in_list s.first item

  -- `numInList++` and the last assertion.
  unfoldable pub count_in : PointerList T → T → Outcome (PointerList T)
  count_in s item = do
    let s' : PointerList T = record s { num_in_list = s.num_in_list + 1 }
    listed ← is_in_list s' item
    assert listed
    done s'

  unfoldable pub append : PointerList T → ℕ → T → Outcome (PointerList T)
  append s address item = do
    let s1 = new_element s address item
    listed ← is_in_list s1 item
    assert (not listed)
    let after_last = set_next s1.elements s1.last (some address) >>= λ elements.
        done (record s1 { last = some address; elements = elements })
    s2 ← if s1.num_in_list == 0 then done (alone s1 address) else after_last
    count_in s2 item

  unfoldable pub prepend : PointerList T → ℕ → T → Outcome (PointerList T)
  prepend s address item = do
    let s1 = new_element s address item
    listed ← is_in_list s1 item
    assert (not listed)
    let before_first = set_next s1.elements (some address) s1.first >>= λ elements.
        done (record s1 { first = some address; elements = elements })
    s2 ← if s1.num_in_list == 0 then done (alone s1 address) else before_first
    count_in s2 item

  -- The loop of `Remove`, for `rounds` elements at most: the elements and `last` after it. Reaching the
  -- end fails `ASSERT(ptr != NULL)`.
  unfoldable pub unlink_from :
      (ℕ → Element T) → ℕ → ℕ → Option ℕ → Option ℕ → T → Outcome ((ℕ → Element T) × Option ℕ)
  unlink_from elements rounds prev none last item = aborted
  unlink_from elements zero prev (some ptr) last item = aborted
  unlink_from elements (suc rounds) prev (some ptr) last item =
      let later = unlink_from elements rounds ptr (elements ptr).next last item in
      if equal item (elements ptr).item
      then done (
        write elements prev (record { item = (elements prev).item; next = (elements ptr).next }),
        if same_pointer (elements ptr).next none then some prev else last,
      )
      else later

  -- `Remove` between its assertions, for the element that `first` points to.
  unfoldable pub remove_listed : PointerList T → T → Option ℕ → Outcome (PointerList T)
  remove_listed s item none = aborted
  remove_listed s item (some a) =
      let first_one = remove_front s >>= λ (removed, s'). assert (equal item removed) >> done s' in
      let later_one =
        unlink_from s.elements s.num_in_list a (s.elements a).next s.last item
        >>= λ (elements, last).
            done (record s { elements = elements; last = last; num_in_list = s.num_in_list - 1 }) in
      if equal item (s.elements a).item then first_one else later_one

  -- The last assertion of `Remove`.
  unfoldable pub check_out : PointerList T → T → Outcome (PointerList T)
  check_out s item = do listed ← is_in_list s item; assert (not listed); done s

  unfoldable pub remove : PointerList T → T → Outcome (PointerList T)
  remove s item = do
    listed ← is_in_list s item
    assert listed
    s' ← remove_listed s item s.first
    check_out s' item

  module _ (smaller : T → T → Bool) where
    -- The loop of `Insert` from the element at `ptr` on, for `rounds` elements at most: the elements
    -- after it has put the one at `address` before a bigger one, or none if it comes to the end.
    unfoldable pub insert_from :
        (ℕ → Element T) → ℕ → ℕ → Option ℕ → ℕ → T → Outcome (Option (ℕ → Element T))
    insert_from elements rounds ptr none address item = done none
    insert_from elements zero ptr (some next) address item = aborted
    insert_from elements (suc rounds) ptr (some next) address item =
        let put_in = set_next elements (some address) (elements ptr).next >>= λ linked.
        set_next linked (some ptr) (some address) >>= λ again. done (some again) in
        let later = insert_from elements rounds next (elements next).next address item in
        if smaller item (elements next).item then put_in else later

    -- `Insert` into a list whose first element is at `first`, behind the first assertion.
    unfoldable pub insert_at : PointerList T → ℕ → T → Option ℕ → Outcome (PointerList T)
    insert_at s address item none = aborted
    insert_at s address item (some a) =
        let in_front = set_next s.elements (some address) (some a) >>= λ elements.
        count_in (record s { first = some address; elements = elements }) item in
        let at_end = set_next s.elements s.last (some address) >>= λ elements.
        count_in (record s { last = some address; elements = elements }) item in
        let behind =
          insert_from s.elements s.num_in_list a (s.elements a).next address item >>= λ found.
          elim found [
            | none ↦ at_end
            | some elements ↦
                done (record s { num_in_list = s.num_in_list + 1; elements = elements })
          ] in
        if smaller item (s.elements a).item then in_front else behind

    -- `SortedList::Insert`.
    unfoldable pub insert : PointerList T → ℕ → T → Outcome (PointerList T)
    insert s address item = do
      let s1 = new_element s address item
      listed ← is_in_list s1 item
      assert (not listed)
      let filled = insert_at s1 address item s1.first
      if s1.num_in_list == 0 then count_in (alone s1 address) item else filled
