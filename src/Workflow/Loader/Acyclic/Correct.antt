-- ===== src/Workflow/Loader/Acyclic/Correct.antt =====
-- `CheckAcyclic` accepts exactly the acyclic delegations, within its rounds.
use zen_agent.Common.{
  ◌≡◌, ◌↔◌, refl, sym, subst, List, [], ◌∷◌, ◌⊎◌, inl, inr, Option, none, some, Bool-cases, map, In,
  bytes_equality, ◌==◌, arith,
}
use zen_agent.Common.Assoc.{lookup, get, keys}
use zen_agent.Common.Bytes.{Bytes}
use zen_agent.Workflow.Spec.{Agents}
use zen_agent.Workflow.Loader.{ok}
use zen_agent.Workflow.Loader.Acyclic.{
  Color, white, gray, black, Colors, paint, Searched, cycle_at, searched, children, search, work,
  search_from, search_all, all_white, verdict, check_acyclic,
}
use zen_agent.Workflow.Loader.Acyclic.Work.{frame_work, whites-le-work, whites-paint}
use zen_agent.Workflow.Loader.Acyclic.Search.{
  Edge, Route, edge, then_on, Finished, names_of, Agrees, Inv, Agrees-paint,
}
use zen_agent.Workflow.Loader.Acyclic.Rounds.{Good, Good-weaken, search-Good}

module _ (agents : Agents) where
  -- An agent that is not on the stack is white or finished.
  get-lookup :
      (n : Bytes) (color : Colors) (k : Color) → lookup n color ≡ some k → get n white color ≡ k
  unfolding get lookup
  get-lookup n [] k h = cc
  get-lookup n ((m, j) ∷ color) k h = elim (Bool-cases (n == m)) [
    | inl e ↦ rw e (cc (rw e at h))
    | inr e ↦ rw e (get-lookup n color k (rw e at h))
  ]

  search_from-Good :
      (n : Bytes) (color : Colors) (ds : List Bytes) (o : Option Color)
      → In n (keys agents)
      → lookup n color ≡ o
      → Inv agents color [] ds
      → Good agents (n ∷ ds) [] (search_from agents n color (get n white color))
  unfolding frame_work work
  search_from-Good n color ds none i e v =
      absurd (subst (λ o. Agrees agents o n ds []) e (v.agrees n) i)
  search_from-Good n color ds (some black) i e v =
      let there = (subst (λ o. Agrees agents o n ds []) e (v.agrees n)).1.0 in
      rw (get-lookup n color black e) (
        ds,
        (
          v,
          λ m j. elim j [
            | inr r ↦ elim r [ ]
            | inl r ↦ elim r [ inl same ↦ subst (λ x. In x ds) (sym same) there | inr q ↦ q ]
          ],
        ),
      )
  search_from-Good n color ds (some gray) i e v =
      elim (subst (λ o. Agrees agents o n ds []) e (v.agrees n)).1.1 [ ]
  search_from-Good n color ds (some white) i e v =
      let kids = children agents n in
      rw (get-lookup n color white e) (
        Good-weaken agents (n ∷ ds) ds [] ((n, kids) ∷ [])
          (search agents (work agents (keys agents)) (paint n gray color) ((n, kids) ∷ []))
          (λ m j. elim j [
            | inr r ↦ elim r [ ]
            | inl r ↦ elim r [ inl same ↦ inr (inl same) | inr q ↦ inl q ]
          ])
          (search-Good agents (work agents (keys agents)) (paint n gray color) ((n, kids) ∷ []) ds
            (record {
              agrees = Agrees-paint agents color n ds [] v.agrees e;
              frames = (λ d g. inl g.0, (λ d g. g, (i, (λ g. g, tt))));
              chain = tt;
              finished = v.finished;
            })
            (omega (
              arith,
              whites-paint agents n (keys agents) color i e,
              whites-le-work agents (keys agents) color,
            ))))

  search_all-Good :
      (ns : List Bytes) (color : Colors) (ds : List Bytes)
      → ((n : Bytes) → In n ns → In n (keys agents))
      → Inv agents color [] ds
      → Good agents ds (map (λ n. (n, [])) ns) (search_all agents ns color)
  unfolding search_all
  search_all-Good [] color ds h v = (ds, (v, λ n i. elim i [ inl k ↦ k | inr k ↦ elim k [ ] ]))
  search_all-Good (n ∷ ns) color ds h v =
      go (search_from agents n color (get n white color))
        (search_from-Good n color ds (lookup n color) (h n (inl refl)) refl v)
        (λ color' es v'. search_all-Good ns color' es (λ m i. h m (inr i)) v')
    where
      go :
          (r : Searched)
          → Good agents (n ∷ ds) [] r
          → ((color' : Colors) (es : List Bytes)
              → Inv agents color' [] es
              → Good agents es (map (λ m. (m, [])) ns) (search_all agents ns color'))
          → Good agents ds
              ((n, []) ∷ map (λ m. (m, [])) ns)
              (elim r [ cycle_at c ↦ cycle_at c | searched color' ↦ search_all agents ns color' ])
      go (cycle_at c) g k = g
      go (searched color') (es, (v', m)) k =
          Good-weaken agents ds es ((n, []) ∷ map (λ m. (m, [])) ns) (map (λ m. (m, [])) ns)
            (search_all agents ns color')
            (λ x i. elim i [
              | inl j ↦ inl (m x (inl (inr j)))
              | inr j ↦ elim j [ inl same ↦ inl (m x (inl (inl same))) | inr r ↦ inr r ]
            ])
            (k color' es v')

  lookup-all_white :
      (ns : List Bytes) (n : Bytes)
      → (In n ns × (lookup n (all_white ns) ≡ some white))
        ⊎ ((¬ In n ns) × (lookup n (all_white ns) ≡ none))
  unfolding lookup all_white
  lookup-all_white [] n = inr (λ i. i, refl)
  lookup-all_white (m ∷ ns) n = elim (Bool-cases (n == m)) [
    | inl e ↦ inl (inl ((bytes_equality.same_iff n m).0 e), rw e)
    | inr e ↦ elim (lookup-all_white ns n) [
      | inl k ↦ inl (inr k.0, rw e k.1)
      | inr k ↦ inr (
        λ i. elim i [ inl same ↦ cc (e, (bytes_equality.same_iff n m).1 same) | inr j ↦ k.0 j ],
        rw e k.1,
      )
    ]
  ]

  Inv-start : Inv agents (all_white (keys agents)) [] []
  Inv-start = record {
    agrees = λ n. elim (lookup-all_white (keys agents) n) [
      | inl k ↦ rw k.1 (k.0, (λ i. i, λ i. i))
      | inr k ↦ rw k.1 k.0
    ];
    frames = tt;
    chain = tt;
    finished = tt;
  }

  Finished-edge :
      (ds : List Bytes) (n c : Bytes) → Finished agents ds → In n ds → Edge agents n c → In c ds
  Finished-edge [] n c h i e = elim i [ ]
  Finished-edge (d ∷ ds) n c h (inl same) e = inr (h.0 c (subst (λ x. Edge agents x c) same e))
  Finished-edge (d ∷ ds) n c h (inr i) e = inr (Finished-edge ds n c h.1.1 i e)

  Finished-Route :
      {n m : Bytes} (ds : List Bytes) → Finished agents ds → In n ds → Route agents n m → In m ds
  Finished-Route ds h i (edge {n} {m} e) = Finished-edge ds n m h i e
  Finished-Route ds h i (then_on {n} {m} e p) = Finished-Route ds h (Finished-edge ds n m h i e) p

  first_step :
      {n m : Bytes} (ds : List Bytes)
      → Finished agents ds
      → ((c : Bytes) → Edge agents n c → In c ds)
      → Route agents n m
      → In m ds
  first_step ds h k (edge {n} {m} e) = k m e
  first_step ds h k (then_on {n} {m} e p) = Finished-Route ds h (k m e) p

  Finished-acyclic :
      (ds : List Bytes) (n : Bytes) → Finished agents ds → In n ds → ¬ Route agents n n
  Finished-acyclic [] n h i p = elim i [ ]
  Finished-acyclic (d ∷ ds) n h (inl same) p =
      h.1.0 (first_step ds h.1.1 h.0 (subst (λ x. Route agents x x) same p))
  Finished-acyclic (d ∷ ds) n h (inr i) p = Finished-acyclic ds n h.1.1 i p

  target_known : {n m : Bytes} → Route agents n m → In m (keys agents)
  target_known (edge e) = e.1
  target_known (then_on e p) = target_known p

  In-names : (ns : List Bytes) (n : Bytes) → In n ns → In n (names_of (map (λ m. (m, [])) ns))
  In-names [] n i = i
  In-names (m ∷ ns) n (inl e) = inl e
  In-names (m ∷ ns) n (inr i) = inr (In-names ns n i)

  verdict_iff :
      (r : Searched)
      → Good agents [] (map (λ n. (n, [])) (keys agents)) r
      → (verdict r ≡ ok tt) ↔ ((n : Bytes) → ¬ Route agents n n)
  verdict_iff (cycle_at c) g = (λ e. absurd (cc e), λ h. absurd (h c g))
  verdict_iff (searched color) (es, (v, m)) = (
    λ e n p.
        Finished-acyclic es n v.finished (m n (inr (In-names (keys agents) n (target_known p)))) p,
    λ h. refl,
  )

  -- The delegations of the agents are accepted exactly if no path of delegations between declared
  -- agents leads from an agent back to it; the search needs no more rounds than it is given.
  pub check_acyclic_iff : (check_acyclic agents ≡ ok tt) ↔ ((n : Bytes) → ¬ Route agents n n)
  unfolding check_acyclic
  check_acyclic_iff =
      verdict_iff (search_all agents (keys agents) (all_white (keys agents)))
        (search_all-Good (keys agents) (all_white (keys agents)) [] (λ n i. i) Inv-start)
