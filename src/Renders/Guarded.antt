-- ===== src/Renders/Guarded.antt =====
-- Whatever callers do in render_cache.rs, nobody is given an output beyond his grants.
use biei.Prelude.{
  ◌≡◌, refl, ◌≢◌, ◌&&◌, not, All, contains, and_true, eqb→ne, sym, ap, ◌∙◌, subst, ◌⊎◌, inl, inr,
  arith, Bool, true, false, List, [], ◌∷◌, ◌++◌, Option, none, some, Eq, eqb, eqb→eq, Bool-cases,
  Option-cases, lookup, insert, length, string_Eq, list_Eq,
}
use biei.Caches.{Moka}
use biei.Workers.Profile.{option_Eq}
use biei.Renders.Outputs.{
  NamespaceSet, allows, allows_each, CachedOutput, is_authorized, Leader, Lookup, disabled, hit,
  leads, waits, RenderOutputCache, authorized_output, join_key, lookup_or_join_key, entry_of,
  insert_from_outcome, drop_leader,
}

abbrev pub Elem : {A : Type 0} → A → List A → Type 0
Elem a [] = ⊥
Elem a (x ∷ xs) = (a ≡ x) ⊎ Elem a xs

-- Who may read what: without authorization, what needs none; with a grant of everything, all that
-- was rendered under some grants; and with other grants, what was rendered under some of these.
pub data Permits : Option NamespaceSet → Option NamespaceSet → Type 0 where
  unprotected : Permits none none
  everything : (rest required : NamespaceSet) → Permits (some ("*" ∷ rest)) (some required)
  part :
      (readable required : NamespaceSet)
      → All (λ n. (n ≢ "*") × (contains n readable ≡ true)) required
      → Permits (some readable) (some required)

allows_each-All :
    (readable required : NamespaceSet)
    → allows_each readable required ≡ true
    → All (λ n. (n ≢ "*") × (contains n readable ≡ true)) required
allows_each-All readable [] h = tt
allows_each-All readable (n ∷ rest) h =
    let (first, later) = and_true (not (eqb n "*") && contains n readable) _ h in
    let (other, member) = and_true (not (eqb n "*")) _ first in
    let differs : eqb n "*" ≡ false = ground arith in
    ((eqb→ne n "*" differs, member), allows_each-All readable rest later)

allows-Permits :
    (readable required : NamespaceSet)
    → allows readable required ≡ true
    → Permits (some readable) (some required)
unfolding allows
allows-Permits [] required h = part [] required (allows_each-All [] required h)
allows-Permits (n ∷ rest) required h = elim (Bool-cases (eqb n "*")) [
  | inl star ↦
      subst (λ x. Permits (some (x ∷ rest)) (some required)) (sym (eqb→eq n "*" star))
        (everything rest required)
  | inr other ↦
      let each : allows_each (n ∷ rest) required ≡ true = rw other at h in
      part (n ∷ rest) required (allows_each-All (n ∷ rest) required each)
]

is_authorized-Permits :
    (required readable : Option NamespaceSet)
    → is_authorized required readable ≡ true
    → Permits readable required
is_authorized-Permits none none h = unprotected
is_authorized-Permits none (some readable) h = absurd (cc)
is_authorized-Permits (some required) none h = absurd (cc)
is_authorized-Permits (some required) (some readable) h = allows-Permits readable required h

module _ {K V : Type 0} ⦃e : Eq K⦄ (moka : Moka K (CachedOutput V)) where
  -- The cache; the callers that were told to render, each with its key, its grants and the leader
  -- that it was handed; and what callers have rendered, with the grants of the caller.
  pub record World : Type 0 where
    pub state : RenderOutputCache moka
    pub callers : List (Leader K × K × Option NamespaceSet)
    pub rendered : List (K × V × Option NamespaceSet)

  -- The caller of a lookup renders if it was told to lead.
  abbrev pub after_join :
      World → K → Option NamespaceSet → RenderOutputCache moka × Lookup K V → World
  after_join w key readable (s, disabled) = record w { state = s }
  after_join w key readable (s, hit output) = record w { state = s }
  after_join w key readable (s, waits channel) = record w { state = s }
  after_join w key readable (s, leads leader) = record w {
    state = s;
    callers = (leader, key, readable) ∷ w.callers;
  }

  -- What callers and the cache do, in any order. A caller that leads renders what it asked for,
  -- under its own grants.
  pub data Step (w : World) : World → Type 0 where
    joins :
        (key : K) (readable : Option NamespaceSet)
        → Step w (after_join w key readable (join_key moka w.state key readable))
    completes :
        (leader : Leader K) (key : K) (readable : Option NamespaceSet) (output : V)
        → Elem (leader, key, readable) w.callers
        → Elem leader w.state.leaders
        → Step w (record w {
          state = (insert_from_outcome moka w.state leader (some output)).0;
          rendered = (key, output, readable) ∷ w.rendered;
        })
    drops :
        (before after : List (Leader K)) (leader : Leader K)
        → w.state.leaders ≡ before ++ (leader ∷ after)
        → Step w (record w { state = drop_leader moka w.state leader (before ++ after) })
    evicts :
        (key : K)
        → Step w (record w { state = record w.state { cache = moka.evict w.state.cache key } })

  pub data Reach (w : World) : World → Type 0 where
    here : Reach w w
    next : {v u : World} → Reach w v → Step v u → Reach w u

  -- The leader that a caller was handed has the key and the grants of the caller, and every output
  -- in the cache was rendered for its key, by a caller with the grants that it requires.
  pub record IsGuarded (w : World) : Type 0 where
    pub handed :
        (leader : Leader K) (key : K) (readable : Option NamespaceSet)
        → Elem (leader, key, readable) w.callers
        → leader ≡ record { key = key; required_namespaces = readable }
    pub resident :
        (key : K) (found : CachedOutput V)
        → moka.get w.state.cache key ≡ some found
        → Elem (key, found.output, found.required_namespaces) w.rendered

  abbrev Joined : World → K → Option NamespaceSet → RenderOutputCache moka × Lookup K V → Type 0
  Joined w key readable x =
      (x.0.cache ≡ w.state.cache)
      × ((after_join w key readable x).rendered ≡ w.rendered)
      × ((after_join w key readable x).state ≡ x.0)
      × (((after_join w key readable x).callers ≡ w.callers)
          ⊎ ((after_join w key readable x).callers
              ≡ (record { key = key; required_namespaces = readable }, key, readable) ∷ w.callers))

  -- A lookup changes nothing in the cache, and a caller that leads is handed its own key and grants.
  join_key-Joined :
      (w : World) (key : K) (readable : Option NamespaceSet)
      → Joined w key readable (join_key moka w.state key readable)
  unfolding join_key
  join_key-Joined w key readable =
      let s = w.state in
      let Goal = Joined w key readable in
      elim (Option-cases (authorized_output moka s.cache key readable)) [
        | inr (output, found) ↦
            let step : join_key moka s key readable ≡ (s, hit output) = rw (join_key, found) refl in
            subst Goal (sym step) (refl, refl, refl, inl refl)
        | inl nothing ↦ elim (Option-cases (lookup key s.in_flight)) [
          | inr (channel, flies) ↦
              let step : join_key moka s key readable ≡ (s, waits channel) =
                rw (join_key, nothing, flies) refl in
              subst Goal (sym step) (refl, refl, refl, inl refl)
          | inl grounded ↦
              let leader : Leader K = record { key = key; required_namespaces = readable } in
              let started : RenderOutputCache moka = record s {
                in_flight = insert key (length s.versions) s.in_flight;
                versions = s.versions ++ (0 ∷ []);
                leaders = leader ∷ s.leaders;
              } in
              let step : join_key moka s key readable ≡ (started, leads leader) =
                rw (join_key, nothing, grounded) refl in
              subst Goal (sym step) (refl, refl, refl, inr refl)
        ]
      ]

  -- An insertion adds the new entry, where the grants of the resident one are the same.
  insert_from_outcome-get :
      (s : RenderOutputCache moka) (leader : Leader K) (output : V) (key : K)
      (found : CachedOutput V)
      → moka.get (insert_from_outcome moka s leader (some output)).0.cache key ≡ some found
      → ((key ≡ leader.key)
          × (found ≡ entry_of moka leader output)
          × ((old : CachedOutput V)
              → moka.get s.cache key ≡ some old
              → old.required_namespaces ≡ leader.required_namespaces))
        ⊎ (moka.get s.cache key ≡ some found)
  unfolding insert_from_outcome
  insert_from_outcome-get s leader output key found =
      let Goal = λ (t : RenderOutputCache moka × Bool).
        moka.get t.0.cache key ≡ some found
        → ((key ≡ leader.key)
            × (found ≡ entry_of moka leader output)
            × ((old : CachedOutput V)
                → moka.get s.cache key ≡ some old
                → old.required_namespaces ≡ leader.required_namespaces))
          ⊎ (moka.get s.cache key ≡ some found) in
      let inserted : RenderOutputCache moka × Bool =
        (record s { cache = moka.insert s.cache leader.key (entry_of moka leader output) }, true) in
      elim (Option-cases (moka.get s.cache leader.key)) [
        | inl absent ↦
            let step : insert_from_outcome moka s leader (some output) ≡ inserted =
              rw (insert_from_outcome, absent) refl in
            subst Goal (sym step) (λ h.
              elim (moka.get-insert s.cache leader.key key (entry_of moka leader output) found h) [
                | inl (k, f) ↦ inl (
                  k,
                  f,
                  λ old got.
                      let same : moka.get s.cache leader.key ≡ some old =
                        ap (moka.get s.cache) (sym k) ∙ got in
                      absurd (cc (absent, same)),
                )
                | inr old ↦ inr old
              ])
        | inr (existing, resident) ↦
            elim (Bool-cases (eqb existing.required_namespaces leader.required_namespaces)) [
              | inl alike ↦
                  let step : insert_from_outcome moka s leader (some output) ≡ inserted =
                    rw (insert_from_outcome, resident, alike) refl in
                  subst Goal (sym step) (λ h.
                    elim (moka.get-insert s.cache leader.key key (entry_of moka leader output) found
                      h) [
                        | inl (k, f) ↦ inl (
                          k,
                          f,
                          λ old got.
                              let same : moka.get s.cache leader.key ≡ some old =
                                ap (moka.get s.cache) (sym k) ∙ got in
                              let is : existing ≡ old = cc in
                              ap (λ (c : CachedOutput V). c.required_namespaces) (sym is)
                              ∙ eqb→eq existing.required_namespaces leader.required_namespaces
                                  alike,
                        )
                        | inr old ↦ inr old
                      ])
              | inr differs ↦
                  let step : insert_from_outcome moka s leader (some output) ≡ (s, false) =
                    rw (insert_from_outcome, resident, differs) refl in
                  subst Goal (sym step) (λ h. inr h)
            ]
      ]

  Step-IsGuarded : {w v : World} → Step w v → IsGuarded w → IsGuarded v
  unfolding drop_leader
  Step-IsGuarded {w} (joins key readable) h =
      let (cache, log, state, callers) = join_key-Joined w key readable in
      let v = after_join w key readable (join_key moka w.state key readable) in
      record {
        handed = λ leader k r member. elim callers [
          | inl same ↦ h.handed leader k r (subst (Elem (leader, k, r)) same member)
          | inr more ↦ elim (subst (Elem (leader, k, r)) more member) [
            | inl is ↦
                let Caller = Leader K × K × Option NamespaceSet in
                let keys : key ≡ k = sym (ap (λ (x : Caller). x.1) is) in
                let grants : readable ≡ r = sym (ap (λ (x : Caller). x.2) is) in
                ap (λ (x : Caller). x.0) is
                ∙ (λ i. record { key = keys i; required_namespaces = grants i })
            | inr old ↦ h.handed leader k r old
          ]
        ];
        resident = λ k found got.
            subst (Elem (k, found.output, found.required_namespaces)) (sym log) (
              h.resident k found (
                ap (λ c. moka.get c k)
                  (sym (ap (λ (x : RenderOutputCache moka). x.cache) state ∙ cache))
                ∙ got));
      }
  Step-IsGuarded {w} (completes leader key readable output member alive) h = record {
    handed = h.handed;
    resident = λ k found got.
        let own = h.handed leader key readable member in
        elim (insert_from_outcome-get w.state leader output k found got) [
          | inl (at, is, _) ↦
              let keys : k ≡ key = at ∙ ap (λ (x : Leader K). x.key) own in
              let grants : found.required_namespaces ≡ readable =
                ap (λ (x : CachedOutput V). x.required_namespaces) is
                ∙ ap (λ (x : Leader K). x.required_namespaces) own in
              let outputs : found.output ≡ output = ap (λ (x : CachedOutput V). x.output) is in
              inl (λ i. (keys i, outputs i, grants i))
          | inr old ↦ inr (h.resident k found old)
        ];
  }
  Step-IsGuarded (drops before after leader listed) h = record {
    handed = h.handed;
    resident = h.resident;
  }
  Step-IsGuarded {w} (evicts key) h = record {
    handed = h.handed;
    resident = λ k found got. h.resident k found (moka.get-evict w.state.cache key k found got);
  }

  Reach-IsGuarded : {w v : World} → Reach w v → IsGuarded w → IsGuarded v
  Reach-IsGuarded here h = h
  Reach-IsGuarded (next r step) h = Step-IsGuarded step (Reach-IsGuarded r h)

  -- What has been rendered stays so.
  Step-rendered :
      {w v : World} (x : K × V × Option NamespaceSet)
      → Step w v
      → Elem x w.rendered
      → Elem x v.rendered
  Step-rendered {w} x (joins key readable) h =
      subst (Elem x) (sym (join_key-Joined w key readable).1) h
  Step-rendered x (completes leader key readable output member alive) h = inr h
  Step-rendered x (drops before after leader listed) h = h
  Step-rendered x (evicts key) h = h

  Reach-rendered :
      {w v : World} (x : K × V × Option NamespaceSet)
      → Reach w v
      → Elem x w.rendered
      → Elem x v.rendered
  Reach-rendered x here h = h
  Reach-rendered x (next r step) h = Step-rendered x step (Reach-rendered x r h)

  -- A caller rendered the output for the key, under grants of his that the reader has.
  abbrev pub IsGranted : World → K → Option NamespaceSet → V → Type 0
  IsGranted w key readable output =
      (made : Option NamespaceSet) × Elem (key, output, made) w.rendered × Permits readable made

  authorized_output-IsGranted :
      (w : World) (key : K) (readable : Option NamespaceSet) (output : V)
      → IsGuarded w
      → authorized_output moka w.state.cache key readable ≡ some output
      → IsGranted w key readable output
  unfolding authorized_output
  authorized_output-IsGranted w key readable output guarded h =
      elim (Option-cases (moka.get w.state.cache key)) [
        | inl absent ↦
            let step : authorized_output moka w.state.cache key readable ≡ none =
              rw (authorized_output, absent) refl in
            absurd (cc (step, h))
        | inr (found, resident) ↦
            elim (Bool-cases (is_authorized found.required_namespaces readable)) [
              | inl granted ↦
                  let step : authorized_output moka w.state.cache key readable ≡ some found.output =
                    rw (authorized_output, resident, granted) refl in
                  let same : found.output ≡ output = cc in
                  (
                    found.required_namespaces,
                    subst (λ (x : V). Elem (key, x, found.required_namespaces) w.rendered) same
                        (guarded.resident key found resident),
                    is_authorized-Permits found.required_namespaces readable granted,
                  )
              | inr refused ↦
                  let step : authorized_output moka w.state.cache key readable ≡ none =
                    rw (authorized_output, resident, refused) refl in
                  absurd (cc (step, h))
            ]
      ]

  -- From a cache with no entry and no caller on, in whatever order callers join, complete and leave
  -- and entries are evicted: when a lookup, whose first part runs before its second one with any
  -- steps in between, hits, then a caller that asked for that very key and was told to lead
  -- rendered that output, and the grants of the reader permit what the grants of that caller were.
  pub lookup_or_join_key-IsGranted :
      (start w v : World) (key : K) (readable : Option NamespaceSet) (output : V)
      → ((k : K) → moka.get start.state.cache k ≡ none)
      → start.callers ≡ []
      → Reach start w
      → Reach w v
      → (lookup_or_join_key moka w.state.cache v.state key readable).1 ≡ hit output
      → IsGranted v key readable output
  unfolding lookup_or_join_key join_key
  lookup_or_join_key-IsGranted start w v key readable output empty alone r1 r2 h =
      let guarded : IsGuarded start = record {
        handed = λ leader k r member. absurd (subst (Elem (leader, k, r)) alone member);
        resident = λ k found got. absurd (cc (empty k, got));
      } in
      let at_w : IsGuarded w = Reach-IsGuarded r1 guarded in
      let at_v : IsGuarded v = Reach-IsGuarded r2 at_w in
      elim (Option-cases (authorized_output moka w.state.cache key readable)) [
        | inr (first, early) ↦
            let step : lookup_or_join_key moka w.state.cache v.state key readable
                ≡ (v.state, hit first) =
              rw (lookup_or_join_key, early) refl in
            let same : hit first ≡ hit output =
              sym (ap (λ (x : RenderOutputCache moka × Lookup K V). x.1) step) ∙ h in
            let is : authorized_output moka w.state.cache key readable ≡ some output = cc in
            let (made, elem, granted) = authorized_output-IsGranted w key readable output at_w is in
            (made, Reach-rendered (key, output, made) r2 elem, granted)
        | inl late ↦ elim (Option-cases (authorized_output moka v.state.cache key readable)) [
          | inr (second, locked) ↦
              let step : lookup_or_join_key moka w.state.cache v.state key readable
                  ≡ (v.state, hit second) =
                rw (lookup_or_join_key, late, join_key, locked) refl in
              let same : hit second ≡ hit output =
                sym (ap (λ (x : RenderOutputCache moka × Lookup K V). x.1) step) ∙ h in
              let is : authorized_output moka v.state.cache key readable ≡ some output = cc in
              authorized_output-IsGranted v key readable output at_v is
          | inl nothing ↦ elim (Option-cases (lookup key v.state.in_flight)) [
            | inr (channel, flies) ↦
                let step : lookup_or_join_key moka w.state.cache v.state key readable
                    ≡ (v.state, waits channel) =
                  rw (lookup_or_join_key, late, join_key, nothing, flies) refl in
                absurd (cc (step, h))
            | inl grounded ↦
                let leader : Leader K = record { key = key; required_namespaces = readable } in
                let step : (lookup_or_join_key moka w.state.cache v.state key readable).1
                    ≡ leads leader =
                  rw (lookup_or_join_key, late, join_key, nothing, grounded) refl in
                absurd (cc (step, h))
          ]
        ]
      ]

  -- No step changes the grants that an output in the cache requires, as long as there is one for
  -- the key.
  pub Step-required_namespaces :
      (w v : World) (key : K) (old new : CachedOutput V)
      → Step w v
      → moka.get w.state.cache key ≡ some old
      → moka.get v.state.cache key ≡ some new
      → new.required_namespaces ≡ old.required_namespaces
  unfolding drop_leader
  Step-required_namespaces w v key old new (joins k readable) h g =
      let (cache, log, state, callers) = join_key-Joined w k readable in
      let kept : moka.get w.state.cache key ≡ some new =
        ap (λ c. moka.get c key) (sym (ap (λ (x : RenderOutputCache moka). x.cache) state ∙ cache))
        ∙ g in
      let same : old ≡ new = cc in ap (λ (c : CachedOutput V). c.required_namespaces) (sym same)
  Step-required_namespaces w v key old new (completes leader at readable output member alive) h g =
      elim (insert_from_outcome-get w.state leader output key new g) [
        | inl (k, is, alike) ↦
            ap (λ (c : CachedOutput V). c.required_namespaces) is ∙ sym (alike old h)
        | inr kept ↦
            let same : old ≡ new = cc in
            ap (λ (c : CachedOutput V). c.required_namespaces) (sym same)
      ]
  Step-required_namespaces w v key old new (drops before after leader listed) h g =
      let same : old ≡ new = cc in ap (λ (c : CachedOutput V). c.required_namespaces) (sym same)
  Step-required_namespaces w v key old new (evicts k) h g =
      let kept = moka.get-evict w.state.cache k key new g in
      let same : old ≡ new = cc in ap (λ (c : CachedOutput V). c.required_namespaces) (sym same)
