-- ===== src/Workflow/Loader/Acyclic/Rounds.antt =====
-- `CheckAcyclic`: a search, round by round.
use zen_agent.Common.{
  ℕ, zero, suc, ◌+◌, ◌≤◌, ◌≡◌, refl, sym, ap, subst, List, [], ◌∷◌, ◌⊎◌, inl, inr, Option, none,
  some, In, bytes_equality, arith,
}
use zen_agent.Common.Assoc.{lookup, keys}
use zen_agent.Common.Bytes.{Bytes}
use zen_agent.Workflow.Spec.{Agents}
use zen_agent.Workflow.Loader.Acyclic.{
  Color, white, gray, black, Colors, Stack, paint, moves, closes, Searched, cycle_at, searched,
  children, visit, step, search,
}
use zen_agent.Workflow.Loader.Acyclic.Work.{whites, frame_work, whites-paint-le, whites-paint}
use zen_agent.Workflow.Loader.Acyclic.Search.{
  Route, names_of, Agrees, Inv, Inv-pop, Inv-skip, Inv-push, Inv-gray,
}

module _ (agents : Agents) where
  -- How a search ends that starts from finished agents and a stack.
  abbrev pub Good : List Bytes → Stack → Searched → Type 0
  Good ds st (cycle_at c) = Route agents c c
  Good ds st (searched color) =
      (es : List Bytes) × (Inv agents color [] es
        × ((n : Bytes) → In n ds ⊎ In n (names_of st) → In n es))

  pub Good-weaken :
      (ds es : List Bytes) (st st' : Stack) (r : Searched)
      → ((n : Bytes) → In n ds ⊎ In n (names_of st) → In n es ⊎ In n (names_of st'))
      → Good es st' r
      → Good ds st r
  Good-weaken ds es st st' (cycle_at c) h g = g
  Good-weaken ds es st st' (searched color) h (fs, (v, k)) = (fs, (v, λ n i. k n (h n i)))

  search-moves :
      (f : ℕ) (color color' : Colors) (cur : Bytes) (cs : List Bytes) (st st' : Stack)
      → step agents color cur cs st ≡ moves color' st'
      → search agents (suc f) color ((cur, cs) ∷ st) ≡ search agents f color' st'
  unfolding search
  search-moves f color color' cur cs st st' e = rw (e, search)

  search-closes :
      (f : ℕ) (color : Colors) (cur c : Bytes) (cs : List Bytes) (st : Stack)
      → step agents color cur cs st ≡ closes c
      → search agents (suc f) color ((cur, cs) ∷ st) ≡ cycle_at c
  unfolding search
  search-closes f color cur c cs st e = rw (e, search)

  step-visit :
      (color : Colors) (cur c : Bytes) (cs : List Bytes) (st : Stack) (o : Option Color)
      → lookup c color ≡ o
      → step agents color cur (c ∷ cs) st ≡ visit agents o c color ((cur, cs) ∷ st)
  unfolding step
  step-visit color cur c cs st o e = ap (λ x. visit agents x c color ((cur, cs) ∷ st)) e

  search-nil : (f : ℕ) (color : Colors) → search agents f color [] ≡ searched color
  unfolding search
  search-nil zero color = refl
  search-nil (suc f) color = refl

  -- A round of the search, for the rounds that are left.
  abbrev pub Onward : ℕ → Type 0
  Onward f =
      (color : Colors) (st : Stack) (ds : List Bytes)
      → Inv agents color st ds
      → whites agents (keys agents) color + frame_work st ≤ f
      → Good ds st (search agents f color st)

  visit-Good :
      (f : ℕ) (color : Colors) (cur c : Bytes) (cs : List Bytes) (st : Stack) (ds : List Bytes)
      (o : Option Color)
      → Onward f
      → lookup c color ≡ o
      → Inv agents color ((cur, c ∷ cs) ∷ st) ds
      → whites agents (keys agents) color + frame_work ((cur, c ∷ cs) ∷ st) ≤ suc f
      → Good ds ((cur, c ∷ cs) ∷ st) (search agents (suc f) color ((cur, c ∷ cs) ∷ st))
  unfolding frame_work visit
  visit-Good f color cur c cs st ds none k e v l =
      subst (Good ds ((cur, c ∷ cs) ∷ st))
        (sym (
          search-moves f color color cur (c ∷ cs) st ((cur, cs) ∷ st)
            (step-visit color cur c cs st none e)))
        (k color ((cur, cs) ∷ st) ds
          (Inv-skip agents color cur c cs st ds
            (λ g. absurd (
              subst (λ o. Agrees agents o c ds (names_of ((cur, c ∷ cs) ∷ st))) e (v.agrees c) g.1))
            v)
          (omega (arith, l)))
  visit-Good f color cur c cs st ds (some black) k e v l =
      subst (Good ds ((cur, c ∷ cs) ∷ st))
        (sym (
          search-moves f color color cur (c ∷ cs) st ((cur, cs) ∷ st)
            (step-visit color cur c cs st (some black) e)))
        (k color ((cur, cs) ∷ st) ds
          (Inv-skip agents color cur c cs st ds
            (λ g.
              (subst (λ o. Agrees agents o c ds (names_of ((cur, c ∷ cs) ∷ st))) e
                (v.agrees c)).1.0)
            v)
          (omega (arith, l)))
  visit-Good f color cur c cs st ds (some gray) k e v l =
      subst (Good ds ((cur, c ∷ cs) ∷ st))
        (sym (search-closes f color cur c (c ∷ cs) st (step-visit color cur c cs st (some gray) e)))
        (Inv-gray agents color cur c cs st ds e v)
  visit-Good f color cur c cs st ds (some white) k e v l =
      let kids = children agents c in
      let st' = (c, kids) ∷ (cur, cs) ∷ st in
      let known =
        (subst (λ o. Agrees agents o c ds (names_of ((cur, c ∷ cs) ∷ st))) e (v.agrees c)).0 in
      subst (Good ds ((cur, c ∷ cs) ∷ st))
        (sym (
          search-moves f color (paint c gray color) cur (c ∷ cs) st st'
            (step-visit color cur c cs st (some white) e)))
        (Good-weaken ds ds ((cur, c ∷ cs) ∷ st) st' (search agents f (paint c gray color) st')
          (λ n i. elim i [ inl j ↦ inl j | inr j ↦ inr (inr j) ])
          (k (paint c gray color) st' ds (Inv-push agents color cur c cs st ds e v)
            (omega (arith, l, whites-paint agents c (keys agents) color known e))))

  pop-Good :
      (f : ℕ) (color : Colors) (cur : Bytes) (st : Stack) (ds : List Bytes)
      → Onward f
      → Inv agents color ((cur, []) ∷ st) ds
      → whites agents (keys agents) color + frame_work ((cur, []) ∷ st) ≤ suc f
      → Good ds ((cur, []) ∷ st) (search agents (suc f) color ((cur, []) ∷ st))
  unfolding frame_work step
  pop-Good f color cur st ds k v l =
      subst (Good ds ((cur, []) ∷ st))
        (sym (search-moves f color (paint cur black color) cur [] st st refl))
        (Good-weaken ds (cur ∷ ds) ((cur, []) ∷ st) st (search agents f (paint cur black color) st)
          (λ n i. elim i [
            | inl j ↦ inl (inr j)
            | inr j ↦ elim j [ inl same ↦ inl (inl same) | inr r ↦ inr r ]
          ])
          (k (paint cur black color) st (cur ∷ ds) (Inv-pop agents color cur st ds v)
            (omega (arith, l, whites-paint-le agents cur black (keys agents) color (λ n. refl)))))

  pub search-Good : (f : ℕ) → Onward f
  unfolding frame_work
  search-Good f color [] ds v l =
      subst (Good ds []) (sym (search-nil f color))
        (ds, (v, λ n i. elim i [ inl k ↦ k | inr k ↦ elim k [ ] ]))
  search-Good zero color ((cur, cs) ∷ st) ds v l = absurd (omega (arith, l))
  search-Good (suc f) color ((cur, []) ∷ st) ds v l = pop-Good f color cur st ds (search-Good f) v l
  search-Good (suc f) color ((cur, c ∷ cs) ∷ st) ds v l =
      visit-Good f color cur c cs st ds (lookup c color) (search-Good f) refl v l
