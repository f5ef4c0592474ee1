-- ===== src/Storage/Tasks/Stealing.antt =====
-- storage/memory.py: from whom a worker steals when its wait for a task has timed out.
use avtomatika.Prelude.{
  ℕ, ◌≤◌, ◌<◌, ◌≡◌, ◌≢◌, ◌⊎◌, inl, inr, refl, String, true, false, ◌&&◌, Option, none, some, List,
  [], ◌∷◌, All, any, arith, length, str_eq, eq_iff, eq_refl, ltb, Bool-cases, if◌then◌else◌,
}
use avtomatika.Dict.{Dict, get, put}
use avtomatika.Dict.Unique.{IsUnique}
use avtomatika.Value.{Job}
use avtomatika.Storage.{Memory, Worker, Skill, Item}
use avtomatika.Storage.Tasks.{
  may_rob, longest, supports, skill_label, is_label, victim_for, victim, receive, steal,
}

-- A queue that may be robbed is no longer than `n`.
abbrev NoLonger : Dict Worker → String → String → ℕ → String × List Item → Type 0
NoLonger workers worker_id skill_name n e =
    may_rob workers worker_id skill_name e.0 ≡ true → length e.1 ≤ n

-- `wid` may be robbed, its queue is longer than `n`, and it is one of the longest that may be.
pub record IsLongest (workers : Dict Worker) (worker_id skill_name : String)
    (queues : Dict (List Item)) (n : ℕ) (wid : String) (q : List Item) : Type 0 where
  pub found : get wid queues ≡ some q
  pub allowed : may_rob workers worker_id skill_name wid ≡ true
  pub longer : n < length q
  pub maximal : All (NoLonger workers worker_id skill_name (length q)) queues

module _ (workers : Dict Worker) (worker_id skill_name : String) where
  All-NoLonger_mono :
      (n k : ℕ) (queues : Dict (List Item))
      → n ≤ k
      → All (NoLonger workers worker_id skill_name n) queues
      → All (NoLonger workers worker_id skill_name k) queues
  All-NoLonger_mono n k [] h a = tt
  All-NoLonger_mono n k (e ∷ queues) h a =
      (λ r. let l = a.0 r in omega arith, All-NoLonger_mono n k queues h a.1)

  abbrev Outcome : Dict (List Item) → ℕ → Option String → Option String → Type 0
  Outcome queues max_len best r =
      ((r ≡ best) × All (NoLonger workers worker_id skill_name max_len) queues)
      ⊎ ((wid : String) × (q : List Item) × (r ≡ some wid)
          × IsLongest workers worker_id skill_name queues max_len wid q)

  keep_longest :
      (wid : String) (q : List Item) (queues : Dict (List Item)) (max_len : ℕ)
      (best r : Option String)
      → IsUnique ((wid, q) ∷ queues)
      → (may_rob workers worker_id skill_name wid && ltb max_len (length q)) ≡ false
      → Outcome queues max_len best r
      → Outcome ((wid, q) ∷ queues) max_len best r
  keep_longest wid q queues max_len best r u no_better (inl (same, all)) =
      inl (same, (λ rob. ground arith, all))
  keep_longest wid q queues max_len best r u no_better (inr (w, p, e, l)) =
      let longer = l.longer in
      inr (
        w,
        p,
        e,
        record {
          found = unfold get in ground (arith, l.found, eq_iff wid w);
          allowed = l.allowed;
          longer = l.longer;
          maximal = (λ rob. ground (arith, longer), l.maximal);
        },
      )

  take_longest :
      (wid : String) (q : List Item) (queues : Dict (List Item)) (max_len : ℕ)
      (best r : Option String)
      → IsUnique ((wid, q) ∷ queues)
      → may_rob workers worker_id skill_name wid ≡ true
      → max_len < length q
      → Outcome queues (length q) (some wid) r
      → Outcome ((wid, q) ∷ queues) max_len best r
  take_longest wid q queues max_len best r u rob more (inl (same, all)) = inr (
    wid,
    q,
    same,
    record {
      found = unfold get in ground (arith, eq_refl wid);
      allowed = rob;
      longer = more;
      maximal = (λ _. omega arith, all);
    },
  )
  take_longest wid q queues max_len best r u rob more (inr (w, p, e, l)) =
      let longer = l.longer in
      inr (
        w,
        p,
        e,
        record {
          found = unfold get in ground (arith, l.found, u.0, eq_iff wid w);
          allowed = l.allowed;
          longer = omega (arith, longer);
          maximal = (λ _. omega (arith, longer), l.maximal);
        },
      )

  longest_lem :
      (queues : Dict (List Item)) (max_len : ℕ) (best : Option String)
      → IsUnique queues
      → Outcome queues max_len best (longest workers worker_id skill_name queues max_len best)
  unfolding longest
  longest_lem [] max_len best u = inl (refl, tt)
  longest_lem ((wid, q) ∷ queues) max_len best u =
      elim (Bool-cases (may_rob workers worker_id skill_name wid && ltb max_len (length q))) [
        | inl better ↦ rw better (
            take_longest wid q queues max_len best _ u (ground arith) (ground arith)
              (longest_lem queues (length q) (some wid) u.1))
        | inr no_better ↦ rw no_better (
            keep_longest wid q queues max_len best _ u no_better
              (longest_lem queues max_len best u.1))
      ]

module _ (worker_id : String) (m : Memory) where
  -- What a theft of `task` leaves.
  abbrev pub Stolen : Worker → Option Job × Memory → Type 0
  Stolen info r =
      (label : String) × (wid : String) × (item : Item) × (q : List Item) × (supports label
          (some info)
        ≡ true)
      × IsLongest m.workers worker_id label m.worker_task_queues 0 wid (item ∷ q)
      × (r.0 ≡ some item.payload)
      × (r.1 ≡ record m { worker_task_queues = put wid q m.worker_task_queues })

  -- Nothing was stolen and nothing changed, since there was nothing to steal.
  abbrev pub NotStolen : Worker → Option Job × Memory → Type 0
  NotStolen info r =
      (r.0 ≡ none)
      × (r.1 ≡ m)
      × ((label wid : String) (q : List Item)
          → supports label (some info) ≡ true
          → label ≢ ""
          → may_rob m.workers worker_id label wid ≡ true
          → get wid m.worker_task_queues ≡ some q
          → q ≡ [])

-- The store has no worker with the empty id, which the code would take for none.
abbrev IsNamed : Dict (List Item) → Type 0
IsNamed queues = get "" queues ≡ none

module _ (worker_id : String) (m : Memory) (u : IsUnique m.worker_task_queues)
    (named : IsNamed m.worker_task_queues) where
  -- No queue that may be robbed for the label has a task.
  abbrev NothingFor : String → Type 0
  NothingFor label = All (NoLonger m.workers worker_id label 0) m.worker_task_queues

  abbrev LongestFor : String → String → List Item → Type 0
  LongestFor label wid q = IsLongest m.workers worker_id label m.worker_task_queues 0 wid q

  abbrev VictimFor : Option String → Option String → Type 0
  VictimFor o r =
      ((r ≡ none) × ((label : String) → o ≡ some label → label ≢ "" → NothingFor label))
      ⊎ ((label wid : String) × (q : List Item) × (o ≡ some label)
          × (r ≡ some wid)
          × LongestFor label wid q)

  victim_of_longest :
      (label : String) (r : Option String)
      → str_eq label "" ≡ false
      → Outcome m.workers worker_id label m.worker_task_queues 0 none r
      → VictimFor
          (some label)
          (elim r [ none ↦ none | some wid ↦ if str_eq wid "" then none else some wid ])
  victim_of_longest label r ne (inl (e, all)) = rw e (inl (refl, λ l p _. ground (arith)))
  victim_of_longest label r ne (inr (wid, q, e, l)) =
      let some_id : str_eq wid "" ≡ false = ground (arith, l.found, named, eq_iff wid "") in
      rw (e, some_id) (inr (label, wid, q, refl, refl, l))

  victim_for_lem : (o : Option String) → VictimFor o (victim_for worker_id o m)
  unfolding victim_for
  victim_for_lem none = inl (refl, λ label e _. cc)
  victim_for_lem (some label) = elim (Bool-cases (str_eq label "")) [
    | inl empty ↦ rw empty (inl (refl, λ l e ne. absurd (ne (ground (arith, eq_iff label "")))))
    | inr ne ↦ rw ne (
        victim_of_longest label _ ne
          (longest_lem m.workers worker_id label m.worker_task_queues 0 none u))
  ]

  -- A label that some of the skills has.
  abbrev HasLabel : String → List Skill → Type 0
  HasLabel label skills = any (λ skill. is_label label (skill_label skill)) skills ≡ true

  abbrev Victim : List Skill → Option String → Type 0
  Victim skills r =
      ((r ≡ none) × ((label : String) → HasLabel label skills → label ≢ "" → NothingFor label))
      ⊎ ((label wid : String) × (q : List Item) × HasLabel label skills
          × (r ≡ some wid)
          × LongestFor label wid q)

  Victim-cons :
      (skill : Skill) (skills : List Skill) (first rest : Option String)
      → VictimFor (skill_label skill) first
      → Victim skills rest
      → Victim (skill ∷ skills) (elim first [ none ↦ rest | some wid ↦ some wid ])
  Victim-cons skill skills first rest (inr (label, wid, q, e, f, l)) v =
      rw f (inr (label, wid, q, ground (arith, e, eq_refl label), refl, l))
  Victim-cons skill skills first rest (inl (e, none_here)) (inr (label, wid, q, h, f, l)) =
      rw (e, f) (inr (label, wid, q, ground (arith, h), refl, l))
  Victim-cons skill skills first rest (inl (e, none_here)) (inl (f, none_there)) =
      rw (e, f)
        (inl (
          refl,
          λ label h ne. elim (Bool-cases (is_label label (skill_label skill))) [
            | inl here ↦ none_here label (label_of label (skill_label skill) here) ne
            | inr there ↦ none_there label (ground (arith, h, there)) ne
          ],
        ))
    where
      label_of : (label : String) (o : Option String) → is_label label o ≡ true → o ≡ some label
      label_of label none h = cc
      label_of label (some s) h = ground (arith, eq_iff s label)

  victim_lem : (skills : List Skill) → Victim skills (victim worker_id skills m)
  unfolding victim
  victim_lem [] = inl (refl, λ label h ne. cc)
  victim_lem (skill ∷ skills) =
      Victim-cons skill skills _ _ (victim_for_lem (skill_label skill)) (victim_lem skills)

  empty_of :
      (label wid : String) (queues : Dict (List Item)) (q : List Item)
      → All (NoLonger m.workers worker_id label 0) queues
      → get wid queues ≡ some q
      → may_rob m.workers worker_id label wid ≡ true
      → q ≡ []
  unfolding get
  empty_of label wid [] q a h r = ground arith
  empty_of label wid ((j, p) ∷ queues) q a h r = elim (Bool-cases (str_eq j wid)) [
    | inl here ↦
        let same : j ≡ wid = (eq_iff j wid).0 here in
        let len : length p ≤ 0 = a.0 (rw same r) in no_items q (ground (arith, here))
    | inr there ↦ empty_of label wid queues q a.1 (ground (arith, there)) r
  ]
    where
      no_items : (q : List Item) → length q ≤ 0 → q ≡ []
      no_items [] h = refl
      no_items (x ∷ q) h = absurd (omega arith)

  theft :
      (wid : String) (q : List Item)
      → get wid m.worker_task_queues ≡ some q
      → 0 < length q
      → (item : Item) × (rest : List Item) × (q ≡ item ∷ rest)
        × (receive wid m ≡ (
          some item.payload,
          record m { worker_task_queues = put wid rest m.worker_task_queues },
        ))
  unfolding receive
  theft wid [] h l = absurd (omega arith)
  theft wid (item ∷ rest) h l = (item, rest, refl, ground (arith, h))

  -- In a store with one queue for an id and no worker with an empty id, a worker known to the store
  -- whose wait has timed out either steals the first task of the queue of another known worker
  -- that shares a skill label with it, one of the longest such queues for that label, and changes
  -- nothing but that queue; or it gets nothing and changes nothing, and then every other known
  -- worker that shares one of its non-empty skill labels has an empty queue. This does not depend on
  -- `WORK_STEALING_ENABLED`, which the code does not read here.
  pub steal_lem :
      (info : Worker)
      → get worker_id m.workers ≡ some info
      → NotStolen worker_id m info (steal worker_id m) ⊎ Stolen worker_id m info (steal worker_id m)
  unfolding steal supports
  steal_lem info known =
      by_victim (victim worker_id info.supported_skills m) refl (victim_lem info.supported_skills)
    where
      by_victim :
          (r : Option String)
          → victim worker_id info.supported_skills m ≡ r
          → Victim info.supported_skills r
          → NotStolen worker_id m info (steal worker_id m)
            ⊎ Stolen worker_id m info (steal worker_id m)
      by_victim r e (inl (f, nothing)) = inl (
        ground (arith, known, e, f),
        ground (arith, known, e, f),
        λ label wid q has_it ne rob at.
            empty_of label wid m.worker_task_queues q (nothing label has_it ne) at rob,
      )
      by_victim r e (inr (label, wid, q, h, f, l)) =
          let (item, rest, split, got) = theft wid q l.found l.longer in
          inr (
            label,
            wid,
            item,
            rest,
            h,
            rw split at l,
            ground (arith, known, e, f, got),
            ground (arith, known, e, f, got),
          )
