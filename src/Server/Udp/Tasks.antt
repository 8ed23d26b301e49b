-- ===== src/Server/Udp/Tasks.antt =====
-- The entries of the dictionaries and the tasks that serve them.
use usmp.Prelude.{
  ℕ, ◌≡◌, ◌∙◌, refl, sym, ap, Bool, true, false, ◌&&◌, ◌||◌, none, some, List, [], ◌∷◌, ◌++◌, Bytes,
  ◌==◌, ==_refl, arith, Bool-cases, inl, inr,
}
use usmp.Prelude.Dict.{
  get, put, delete, IsDict, get-put, get-put_ne, get-delete, get-delete_ne, put-IsDict,
  delete-IsDict,
}
use usmp.Server.Udp.{is_stream, drop_stream}
use usmp.Udp.Listener.Addresses.{Addr, addr_key, same_addr}

abbrev pub same_task : Addr → ℕ → Addr × ℕ → Bool
same_task a i task = same_addr a task.0 && (i == task.1)

-- A task is in the list.
unfoldable pub has_task : Addr → ℕ → List (Addr × ℕ) → Bool
has_task a i [] = false
has_task a i (task ∷ rest) = same_task a i task || has_task a i rest

-- The addresses of the tasks.
abbrev pub ips : List (Addr × ℕ) → List Bytes
ips [] = []
ips ((addr, stream) ∷ rest) = addr.0 ∷ ips rest

pub ips-append : (xs ys : List (Addr × ℕ)) → ips (xs ++ ys) ≡ ips xs ++ ips ys
ips-append [] ys = refl
ips-append ((addr, stream) ∷ rest) ys = ap (λ l. addr.0 ∷ l) (ips-append rest ys)

-- Every entry is that of a task, and no address has two.
pub record AreServed (entries tasks : List (Addr × ℕ)) : Type 0 where
  pub dict : IsDict addr_key entries
  pub live : (a : Addr) (i : ℕ) → get addr_key a entries ≡ some i → has_task a i tasks ≡ true

has_task-remove :
    (a : Addr) (i : ℕ) (task : Addr × ℕ) (before after : List (Addr × ℕ))
    → has_task a i (before ++ task ∷ after) ≡ true
    → same_task a i task ≡ false
    → has_task a i (before ++ after) ≡ true
unfolding has_task
has_task-remove a i task [] after h differs = ground arith
has_task-remove a i task (x ∷ before) after h differs =
    ground (arith, has_task-remove a i task before after)

entry_of :
    (entries : List (Addr × ℕ)) (a addr : Addr) (i : ℕ)
    → same_addr a addr ≡ true
    → get addr_key a entries ≡ some i
    → get addr_key addr entries ≡ some i
entry_of entries a addr i same h = rw (← addr_key.eq_of_same a addr same) h

same_stream : (i j : ℕ) → some i ≡ some j → (j == i) ≡ true
same_stream i j h = let e : i ≡ j = cc in rw e (==_refl j)

-- A new task with its entry.
pub put-AreServed :
    (addr : Addr) (stream : ℕ) (entries tasks : List (Addr × ℕ))
    → AreServed entries tasks
    → AreServed (put addr_key addr stream entries) ((addr, stream) ∷ tasks)
unfolding has_task
put-AreServed addr stream entries tasks v = record {
  dict = put-IsDict addr_key addr stream entries v.dict;
  live = λ a i h. elim (Bool-cases (same_addr a addr)) [
    | inl e ↦
        let own : some stream ≡ some i =
          sym (get-put addr_key addr stream entries)
          ∙ entry_of (put addr_key addr stream entries) a addr i e h in
        rw (e, same_stream stream i own) refl
    | inr e ↦ rw (e, v.live a i (sym (get-put_ne addr_key a addr stream entries e) ∙ h)) refl
  ];
}

-- A task that goes takes its entry with it.
pub delete-AreServed :
    (addr : Addr) (stream : ℕ) (entries before after : List (Addr × ℕ))
    → AreServed entries (before ++ (addr, stream) ∷ after)
    → AreServed (delete addr_key addr entries) (before ++ after)
delete-AreServed addr stream entries before after v = record {
  dict = delete-IsDict addr_key addr entries v.dict;
  live = λ a i h. elim (Bool-cases (same_addr a addr)) [
    | inl e ↦
        let gone : none ≡ some i =
          sym (get-delete addr_key addr entries v.dict)
          ∙ entry_of (delete addr_key addr entries) a addr i e h in
        cc
    | inr e ↦
        has_task-remove a i (addr, stream) before after
          (v.live a i (sym (get-delete_ne addr_key a addr entries e) ∙ h)) (rw e refl)
  ];
}

pub drop-AreServed :
    (addr : Addr) (stream : ℕ) (entries before after : List (Addr × ℕ))
    → AreServed entries (before ++ (addr, stream) ∷ after)
    → AreServed (drop_stream addr stream entries) (before ++ after)
unfolding drop_stream
drop-AreServed addr stream entries before after v =
    elim (Bool-cases (is_stream stream (get addr_key addr entries))) [
      | inl e ↦ rw e (delete-AreServed addr stream entries before after v)
      | inr e ↦ rw e (record {
        dict = v.dict;
        live = λ a i h.
            has_task-remove a i (addr, stream) before after (v.live a i h) (other_task a i h e);
      })
    ]
  where
    other_task :
        (a : Addr) (i : ℕ)
        → get addr_key a entries ≡ some i
        → is_stream stream (get addr_key addr entries) ≡ false
        → same_task a i (addr, stream) ≡ false
    other_task a i h e = elim (Bool-cases (same_addr a addr)) [
      | inl same ↦
          rw same (ground (arith, e, ap (is_stream stream) (entry_of entries a addr i same h)))
      | inr differs ↦ rw differs refl
    ]

-- The cleanup of a task leaves the entries of the other kind of task.
pub drop-AreServed_other :
    (addr : Addr) (stream : ℕ) (entries tasks : List (Addr × ℕ))
    → AreServed entries tasks
    → AreServed (drop_stream addr stream entries) tasks
unfolding drop_stream
drop-AreServed_other addr stream entries tasks v =
    elim (Bool-cases (is_stream stream (get addr_key addr entries))) [
      | inl e ↦ rw e (record {
        dict = delete-IsDict addr_key addr entries v.dict;
        live = λ a i h. elim (Bool-cases (same_addr a addr)) [
          | inl same ↦
              let gone : none ≡ some i =
                sym (get-delete addr_key addr entries v.dict)
                ∙ entry_of (delete addr_key addr entries) a addr i same h in
              cc
          | inr differs ↦ v.live a i (sym (get-delete_ne addr_key a addr entries differs) ∙ h)
        ];
      })
      | inr e ↦ rw e v
    ]
