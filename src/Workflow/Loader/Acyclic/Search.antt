-- ===== src/Workflow/Loader/Acyclic/Search.antt =====
-- `CheckAcyclic`: the invariant of the search.
use zen_agent.Common.{
  ◌≡◌, ◌≢◌, refl, sym, ap, subst, List, [], ◌∷◌, ◌⊎◌, inl, inr, Option, none, some, Bool-cases, map,
  In, bytes_equality, ◌==◌,
}
use zen_agent.Common.Assoc.{lookup, keys, lookup-modify}
use zen_agent.Common.Bytes.{Bytes}
use zen_agent.Workflow.Spec.{Agents}
use zen_agent.Workflow.Loader.Acyclic.{Color, white, gray, black, Colors, Stack, paint, children}

abbrev pub names_of : Stack → List Bytes
names_of = map (λ f. f.0)

module _ (agents : Agents) where
  -- `m` is a declared agent that `n` delegates to.
  abbrev pub Edge : Bytes → Bytes → Type 0
  Edge n m = In m (children agents n) × In m (keys agents)

  pub data Route : Bytes → Bytes → Type 0 where
    edge : {n m : Bytes} → Edge n m → Route n m
    then_on : {n m k : Bytes} → Edge n m → Route m k → Route n k

  -- The agents that are black, the last one first: each delegates only to earlier ones.
  abbrev pub Finished : List Bytes → Type 0
  Finished [] = Unit
  Finished (d ∷ ds) = ((c : Bytes) → Edge d c → In c ds) × ((¬ In d ds) × Finished ds)

  -- What the colour of an agent says of the finished agents and of those on the stack.
  abbrev pub Agrees : Option Color → Bytes → List Bytes → List Bytes → Type 0
  Agrees none n ds ss = ¬ In n (keys agents)
  Agrees (some white) n ds ss = In n (keys agents) × ((¬ In n ds) × (¬ In n ss))
  Agrees (some gray) n ds ss = In n (keys agents) × ((¬ In n ds) × In n ss)
  Agrees (some black) n ds ss = In n (keys agents) × (In n ds × (¬ In n ss))

  -- A delegate of a frame is still to come, finished, or the agent of the frame above.
  abbrev pub Frames : Option Bytes → List Bytes → Stack → Type 0
  Frames above ds [] = Unit
  Frames above ds ((cur, cs) ∷ st) =
      ((c : Bytes) → Edge cur c → In c cs ⊎ (In c ds ⊎ (above ≡ some c)))
      × (((c : Bytes) → In c cs → In c (children agents cur))
          × (In cur (keys agents) × ((¬ In cur (names_of st)) × Frames (some cur) ds st)))

  -- Each frame's agent delegates to that of the frame above.
  abbrev pub Chain : Stack → Type 0
  Chain [] = Unit
  Chain (f ∷ []) = Unit
  Chain (f ∷ g ∷ st) = Edge g.0 f.0 × Chain (g ∷ st)

  pub record Inv (color : Colors) (st : Stack) (ds : List Bytes) : Type 0 where
    pub agrees : (n : Bytes) → Agrees (lookup n color) n ds (names_of st)
    pub frames : Frames none ds st
    pub chain : Chain st
    pub finished : Finished ds

  append_edge : {a b d : Bytes} → Route a b → Edge b d → Route a d
  append_edge (edge e) f = then_on e (edge f)
  append_edge (then_on e p) f = then_on e (append_edge p f)

  -- From a frame on the stack a path leads to the top.
  pub chain-Route :
      (c cur : Bytes) (cs : List Bytes) (st : Stack)
      → Chain ((cur, cs) ∷ st)
      → In c (cur ∷ names_of st)
      → (c ≡ cur) ⊎ Route c cur
  chain-Route c cur cs st h (inl e) = inl e
  chain-Route c cur cs [] h (inr i) = elim i [ ]
  chain-Route c cur cs ((n, ns) ∷ st) h (inr i) = elim (chain-Route c n ns st h.1 i) [
    | inl e ↦ inr (subst (λ x. Route x cur) (sym e) (edge h.0))
    | inr p ↦ inr (append_edge p h.0)
  ]

  -- More finished agents, among them the one above.
  Frames-finish :
      (cur : Bytes) (ds : List Bytes) (st : Stack)
      → Frames (some cur) ds st
      → Frames none (cur ∷ ds) st
  Frames-finish cur ds [] h = tt
  Frames-finish cur ds ((n, ns) ∷ st) (a, (b, (i, (d, rest)))) = (
    λ c e. elim (a c e) [
      | inl k ↦ inl k
      | inr r ↦ elim r [ inl k ↦ inr (inl (inr k)) | inr k ↦ inr (inl (inl (some-inj k))) ]
    ],
    (b, (i, (d, deeper n st rest))),
  )
    where
      some-inj : {c : Bytes} → some cur ≡ some c → c ≡ cur
      some-inj k = cc k

      deeper :
          (above : Bytes) (st : Stack)
          → Frames (some above) ds st
          → Frames (some above) (cur ∷ ds) st
      deeper above [] h = tt
      deeper above ((n, ns) ∷ st) (a, (b, (i, (d, rest)))) = (
        λ c e. elim (a c e) [
          | inl k ↦ inl k
          | inr r ↦ elim r [ inl k ↦ inr (inl (inr k)) | inr k ↦ inr (inr k) ]
        ],
        (b, (i, (d, deeper n st rest))),
      )

  Agrees-gray :
      (o : Option Color) (n : Bytes) (ds ss : List Bytes)
      → Agrees o n ds ss
      → In n (keys agents)
      → In n ss
      → ¬ In n ds
  Agrees-gray none n ds ss h i k = absurd (h i)
  Agrees-gray (some white) n ds ss h i k = absurd (h.1.1 k)
  Agrees-gray (some gray) n ds ss h i k = h.1.0
  Agrees-gray (some black) n ds ss h i k = absurd (h.1.1 k)

  -- The top frame has nothing left: its agent is finished.
  pub Inv-pop :
      (color : Colors) (cur : Bytes) (st : Stack) (ds : List Bytes)
      → Inv color ((cur, []) ∷ st) ds
      → Inv (paint cur black color) st (cur ∷ ds)
  Inv-pop color cur st ds v =
      let (all, (_, (known, (alone, rest)))) = v.frames in
      record {
        agrees = λ n. agrees_at known alone n;
        frames = Frames-finish cur ds st rest;
        chain = tail st v.chain;
        finished = (
          λ c e. done c (all c e),
          (Agrees-gray (lookup cur color) cur ds _ (v.agrees cur) known (inl refl), v.finished),
        );
      }
    where
      done : (c : Bytes) → In c [] ⊎ (In c ds ⊎ (none ≡ some c)) → In c ds
      done c (inl i) = elim i [ ]
      done c (inr (inl i)) = i
      done c (inr (inr e)) = absurd (cc e)

      tail : (st : Stack) → Chain ((cur, []) ∷ st) → Chain st
      tail [] h = tt
      tail (f ∷ st) h = h.1

      kept :
          (n : Bytes) (o : Option Color)
          → n ≢ cur
          → Agrees o n ds (cur ∷ names_of st)
          → Agrees o n (cur ∷ ds) (names_of st)
      kept n none d h = h
      kept n (some white) d h =
          (h.0, (λ i. elim i [ inl e ↦ d e | inr k ↦ h.1.0 k ], λ i. h.1.1 (inr i)))
      kept n (some gray) d h = (
        h.0,
        (
          λ i. elim i [ inl e ↦ d e | inr k ↦ h.1.0 k ],
          elim h.1.1 [ inl e ↦ absurd (d e) | inr k ↦ k ],
        ),
      )
      kept n (some black) d h = (h.0, (inr h.1.0, λ i. h.1.1 (inr i)))

      agrees_at :
          In cur (keys agents)
          → (¬ In cur (names_of st))
          → (n : Bytes) → Agrees (lookup n (paint cur black color)) n (cur ∷ ds) (names_of st)
      agrees_at known alone n = elim (Bool-cases (n == cur)) [
        | inl e ↦
            let same : n ≡ cur = (bytes_equality.same_iff n cur).0 e in
            rw (lookup-modify cur n black (λ _. black) color, e, same) (known, (inl refl, alone))
        | inr e ↦
            rw (lookup-modify cur n black (λ _. black) color, e)
              (kept n (lookup n color) (λ same. cc (e, (bytes_equality.same_iff n cur).1 same))
                (v.agrees n))
      ]

  Frames-skip :
      (cur c : Bytes) (cs : List Bytes) (st : Stack) (ds : List Bytes)
      → Frames none ds ((cur, c ∷ cs) ∷ st)
      → (Edge cur c → In c ds)
      → Frames none ds ((cur, cs) ∷ st)
  Frames-skip cur c cs st ds (all, (kids, rest)) h = (
    λ d e. elim (all d e) [
      | inr k ↦ inr k
      | inl i ↦ elim i [
        | inr k ↦ inl k
        | inl same ↦ inr (inl (subst (λ x. In x ds) (sym same) (h (subst (Edge cur) same e))))
      ]
    ],
    (λ d i. kids d (inr i), rest),
  )

  Chain-skip :
      (cur : Bytes) (cs ds : List Bytes) (st : Stack)
      → Chain ((cur, cs) ∷ st)
      → Chain ((cur, ds) ∷ st)
  Chain-skip cur cs ds [] h = tt
  Chain-skip cur cs ds (f ∷ st) h = h

  -- A delegate that is no agent, or finished, is passed over.
  pub Inv-skip :
      (color : Colors) (cur c : Bytes) (cs : List Bytes) (st : Stack) (ds : List Bytes)
      → (Edge cur c → In c ds)
      → Inv color ((cur, c ∷ cs) ∷ st) ds
      → Inv color ((cur, cs) ∷ st) ds
  Inv-skip color cur c cs st ds h v = record {
    agrees = v.agrees;
    frames = Frames-skip cur c cs st ds v.frames h;
    chain = Chain-skip cur (c ∷ cs) cs st v.chain;
    finished = v.finished;
  }

  -- A white agent is put on the stack, behind a stack whose agents are not it.
  Agrees-push :
      (n c : Bytes) (o : Option Color) (ds ss : List Bytes)
      → n ≢ c
      → Agrees o n ds ss
      → Agrees o n ds (c ∷ ss)
  Agrees-push n c none ds ss d h = h
  Agrees-push n c (some white) ds ss d h =
      (h.0, (h.1.0, λ i. elim i [ inl e ↦ d e | inr k ↦ h.1.1 k ]))
  Agrees-push n c (some gray) ds ss d h = (h.0, (h.1.0, inr h.1.1))
  Agrees-push n c (some black) ds ss d h =
      (h.0, (h.1.0, λ i. elim i [ inl e ↦ d e | inr k ↦ h.1.1 k ]))

  pub Agrees-paint :
      (color : Colors) (c : Bytes) (ds ss : List Bytes)
      → ((n : Bytes) → Agrees (lookup n color) n ds ss)
      → lookup c color ≡ some white
      → (n : Bytes) → Agrees (lookup n (paint c gray color)) n ds (c ∷ ss)
  Agrees-paint color c ds ss h w n = elim (Bool-cases (n == c)) [
    | inl e ↦
        let (known, (fresh, _)) = subst (λ o. Agrees o c ds ss) w (h c) in
        rw (lookup-modify c n gray (λ _. gray) color, e, (bytes_equality.same_iff n c).0 e)
          (known, (fresh, inl refl))
    | inr e ↦
        rw (lookup-modify c n gray (λ _. gray) color, e)
          (Agrees-push n c (lookup n color) ds ss
            (λ same. cc (e, (bytes_equality.same_iff n c).1 same)) (h n))
  ]

  pub Inv-push :
      (color : Colors) (cur c : Bytes) (cs : List Bytes) (st : Stack) (ds : List Bytes)
      → lookup c color ≡ some white
      → Inv color ((cur, c ∷ cs) ∷ st) ds
      → Inv (paint c gray color) ((c, children agents c) ∷ (cur, cs) ∷ st) ds
  Inv-push color cur c cs st ds w v =
      let (known, (fresh, alone)) = subst (λ o. Agrees o c ds (cur ∷ names_of st)) w (v.agrees c) in
      let (all, (kids, rest)) = v.frames in
      record {
        agrees = Agrees-paint color c ds (cur ∷ names_of st) v.agrees w;
        frames = (
          λ d e. inl e.0,
          (
            λ d i. i,
            (
              known,
              (
                alone,
                (
                  λ d e. elim (all d e) [
                    | inr k ↦ elim k [ inl j ↦ inr (inl j) | inr z ↦ absurd (cc z) ]
                    | inl i ↦ elim i [ inr k ↦ inl k | inl same ↦ inr (inr (ap some (sym same))) ]
                  ],
                  (λ d i. kids d (inr i), rest),
                ),
              ),
            ),
          ),
        );
        chain = ((kids c (inl refl), known), Chain-skip cur (c ∷ cs) cs st v.chain);
        finished = v.finished;
      }

  -- A gray delegate lies on a cycle.
  pub Inv-gray :
      (color : Colors) (cur c : Bytes) (cs : List Bytes) (st : Stack) (ds : List Bytes)
      → lookup c color ≡ some gray
      → Inv color ((cur, c ∷ cs) ∷ st) ds
      → Route c c
  Inv-gray color cur c cs st ds w v =
      let (known, (_, there)) = subst (λ o. Agrees o c ds (cur ∷ names_of st)) w (v.agrees c) in
      let back : Edge cur c = (v.frames.1.0 c (inl refl), known) in
      elim (chain-Route c cur (c ∷ cs) st v.chain there) [
        | inl e ↦ subst (λ x. Route x c) (sym e) (edge back)
        | inr p ↦ append_edge p back
      ]
