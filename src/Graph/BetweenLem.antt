-- ===== src/Graph/BetweenLem.antt =====
-- What `getNodesBetween` returns.
use tracing_framework.Prelude.{
  ℕ, zero, suc, ◌≤◌, ◌<◌, String, Option, some, List, [], ◌∷◌, Bool, true, false, ◌||◌, ◌==◌,
  if◌then◌else◌, ◌≡◌, refl, arith, eq_iff, eq_refl, Bool-cases, Option-cases, inl, inr, ◌⊎◌, ◌↔◌,
  subst, sym, ap, ◌∙◌, Bool_ext,
}
use tracing_framework.Prelude.KeySet.{contains, contains-append}
use tracing_framework.Prelude.Dict.{get, get-put}
use tracing_framework.Graph.Defs.{Graph, parents_of}
use tracing_framework.Graph.Covers.{Reaches, here, step}
use tracing_framework.Graph.Visible.{IsAcyclic}
use tracing_framework.Graph.Between.{Between, mark, any_parent, look, get_nodes_between}

module _ (next : String → List String) (rank : String → ℕ)
    (falls : (p q : String) → contains q (next p) ≡ true → rank q < rank p) (a b : String) where
  Reaches-le : {p q : String} → Reaches next p q → rank q ≤ rank p
  Reaches-le here = omega arith
  Reaches-le (step {a = p} {b = q} e x) = omega (arith, falls p q e, Reaches-le x)

  -- What has been decided is right, and the list holds `a`, `b` and the nodes decided to be between.
  record IsRight (s : Between) : Type 0 where
    right : (k : String) (x : Bool) → get s.between k ≡ some x → (x ≡ true) ↔ Reaches next k b
    listed :
        (k : String)
        → (contains k s.found ≡ true) ↔ ((a ≡ k) ⊎ (b ≡ k) ⊎ (get s.between k ≡ some true))

  -- From `s` to `t` nodes have been decided of which `P` holds, each with all its parents but `b`.
  record Decides (P : String → Type 0) (s t : Between) : Type 0 where
    kept : (k : String) (x : Bool) → get s.between k ≡ some x → get t.between k ≡ some x
    met : (k : String) (x : Bool) → get t.between k ≡ some x → (get s.between k ≡ some x) ⊎ P k
    closed :
        (k : String) (x : Bool)
        → get t.between k ≡ some x
        → (get s.between k ≡ some x)
          ⊎ (b ≡ k)
          ⊎ ((q : String) → contains q (next k) ≡ true → (y : Bool) × (get t.between q ≡ some y))

  Decides-refl : (P : String → Type 0) (s : Between) → Decides P s s
  Decides-refl P s = record { kept = λ k x e. e; met = λ k x e. inl e; closed = λ k x e. inl e }

  Decides-trans :
      (P Q : String → Type 0) (s t u : Between)
      → ((k : String) → Q k → P k)
      → Decides Q s t
      → Decides P t u
      → Decides P s u
  Decides-trans P Q s t u h c d = record {
    kept = λ k x e. d.kept k x (c.kept k x e);
    met = λ k x e. elim (d.met k x e) [
      | inr p ↦ inr p
      | inl o ↦ elim (c.met k x o) [ inl old ↦ inl old | inr q ↦ inr (h k q) ]
    ];
    closed = λ k x e. elim (d.closed k x e) [
      | inr n ↦ inr n
      | inl o ↦ elim (c.closed k x o) [
        | inl old ↦ inl old
        | inr (inl at_b) ↦ inr (inl at_b)
        | inr (inr n) ↦ inr (inr (λ q i. let (y, k') = n q i in (y, d.kept q y k')))
      ]
    ];
  }

  abbrev Looks : ℕ → (String → Between → Option (Bool × Between)) → Type 0
  Looks f rec =
      (p : String) (s : Between)
      → IsRight s
      → rank p < f
      → (x : Bool) × (t : Between) × (rec p s ≡ some (x, t))
        × IsRight t
        × Decides (Reaches next p) s t
        × (get t.between p ≡ some x)

  any_parent_lem :
      (f : ℕ) (rec : String → Between → Option (Bool × Between)) (p : String) (ps : List String)
      (s : Between)
      → Looks f rec
      → ((q : String) → contains q ps ≡ true → contains q (next p) ≡ true)
      → IsRight s
      → rank p ≤ f
      → (x : Bool) × (t : Between) × (any_parent rec ps s ≡ some (x, t))
        × IsRight t
        × Decides (Reaches next p) s t
        × ((x ≡ true) ↔ ((q : String) × (contains q ps ≡ true) × Reaches next q b))
        × ((q : String) → contains q ps ≡ true → (y : Bool) × (get t.between q ≡ some y))
  unfolding any_parent contains
  any_parent_lem f rec p [] s ih sub r h = (
    false,
    s,
    refl,
    r,
    Decides-refl (Reaches next p) s,
    (λ e. absurd (ground arith), λ (q, i, x). absurd (ground arith)),
    λ q i. absurd (ground arith),
  )
  any_parent_lem f rec p (q ∷ qs) s ih sub r h =
      let edge : contains q (next p) ≡ true = sub q (ground (arith, eq_refl q)) in
      let (x, t, e, r1, d1, k1) = ih q s r (omega (arith, falls p q edge)) in
      let (y, u, e', r2, d2, c2, k2) =
        any_parent_lem f rec p qs t ih (λ j i. sub j (ground arith)) r1 h in
      (
        x || y,
        u,
        ground arith,
        r2,
        Decides-trans (Reaches next p) (Reaches next q) s t u (λ k w. step edge w) d1 d2,
        (
          λ e3. elim (Bool-cases x) [
            | inl yes' ↦ (q, ground (arith, eq_refl q), (r1.right q x k1).0 yes')
            | inr no' ↦ let (j, i, w) = c2.0 (ground arith) in (j, ground arith, w)
          ],
          λ (j, i, w). elim (Bool-cases (q == j)) [
            | inl same ↦
                let w' = subst (λ z. Reaches next z b) (sym ((eq_iff q j).0 same)) w in
                ground (arith, (r1.right q x k1).1 w')
            | inr other ↦ ground (arith, c2.1 (j, ground arith, w))
          ],
        ),
        λ j i. elim (Bool-cases (q == j)) [
          | inl same ↦
              (x, subst (λ z. get u.between z ≡ some x) ((eq_iff q j).0 same) (d2.kept q x k1))
          | inr other ↦ k2 j (ground arith)
        ],
      )

  mark-IsRight :
      (p : String) (x : Bool) (s : Between)
      → (x ≡ true) ↔ Reaches next p b
      → IsRight s
      → IsRight (mark p x s)
  unfolding mark contains
  mark-IsRight p true s h r = record {
    right = λ k y e. elim (Bool-cases (p == k)) [
      | inl same ↦
          subst (λ z. (y ≡ true) ↔ Reaches next z b) ((eq_iff p k).0 same)
            (ground (arith, h, get-put p k true s.between))
      | inr other ↦ r.right k y (ground (arith, get-put p k true s.between))
    ];
    listed = λ k. ground (
      arith,
      r.listed k,
      get-put p k true s.between,
      eq_iff p k,
      contains-append k s.found (p ∷ []),
    );
  }
  mark-IsRight p false s h r = record {
    right = λ k y e. elim (Bool-cases (p == k)) [
      | inl same ↦
          subst (λ z. (y ≡ true) ↔ Reaches next z b) ((eq_iff p k).0 same)
            (ground (arith, h, get-put p k false s.between))
      | inr other ↦ r.right k y (ground (arith, get-put p k false s.between))
    ];
    listed = λ k. elim (Bool-cases (p == k)) [
      | inl same ↦
          let undecided : get s.between k ≡ some true → ⊥ = λ e.
            let w =
              subst (λ z. Reaches next z b) (sym ((eq_iff p k).0 same))
                ((r.right k true e).0 refl) in
            ground (arith, h.1 w) in
          ground (arith, r.listed k, get-put p k false s.between, undecided)
      | inr other ↦ ground (arith, r.listed k, get-put p k false s.between)
    ];
  }

  get-mark :
      (p k : String) (x : Bool) (s : Between)
      → get (mark p x s).between k ≡ (if p == k then some x else get s.between k)
  unfolding mark
  get-mark p k true s = get-put p k true s.between
  get-mark p k false s = get-put p k false s.between

  mark-Decides :
      (p : String) (x : Bool) (s : Between)
      → ((y : Bool) → get s.between p ≡ some y → y ≡ x)
      → (b ≡ p)
        ⊎ ((q : String) → contains q (next p) ≡ true → (y : Bool) × (get s.between q ≡ some y))
      → Decides (Reaches next p) s (mark p x s)
  mark-Decides p x s same all =
      let kept : (k : String) (y : Bool)
          → get s.between k ≡ some y
          → get (mark p x s).between k ≡ some y =
        λ k y e. elim (Bool-cases (p == k)) [
          | inl at ↦
              let e' = subst (λ z. get s.between z ≡ some y) (sym ((eq_iff p k).0 at)) e in
              ground (arith, get-mark p k x s, same y e')
          | inr off ↦ ground (arith, get-mark p k x s)
        ] in
      record {
        kept = kept;
        met = λ k y e. elim (Bool-cases (p == k)) [
          | inl at ↦ inr (subst (λ z. Reaches next p z) ((eq_iff p k).0 at) here)
          | inr off ↦ inl (ground (arith, get-mark p k x s))
        ];
        closed = λ k y e. elim (Bool-cases (p == k)) [
          | inl at ↦ elim all [
            | inl at_b ↦ inr (inl (at_b ∙ (eq_iff p k).0 at))
            | inr known ↦ inr (
                inr (λ q i.
                  let i' = subst (λ z. contains q (next z) ≡ true) (sym ((eq_iff p k).0 at)) i in
                  let (v, w) = known q i' in (v, kept q v w)))
          ]
          | inr off ↦ inl (ground (arith, get-mark p k x s))
        ];
      }

  Reaches-split :
      {p c : String}
      → Reaches next p c
      → (p ≡ c) ⊎ ((q : String) × (contains q (next p) ≡ true) × Reaches next q c)
  Reaches-split here = inl refl
  Reaches-split (step {b = q} e w) = inr (q, e, w)

  look_lem : (f : ℕ) → Looks f (look next b f)
  unfolding look
  look_lem zero p s r h = absurd (omega arith)
  look_lem (suc f) p s r h = elim (Option-cases (get s.between p)) [
    | inr (x, e) ↦ (x, s, ground arith, r, Decides-refl (Reaches next p) s, e)
    | inl e ↦ elim (Bool-cases (p == b)) [
      | inl same ↦
          let at = (eq_iff p b).0 same in
          let reached : Reaches next p b = subst (λ z. Reaches next p z) at here in
          (
            true,
            mark p true s,
            ground arith,
            mark-IsRight p true s (λ t. reached, λ w. refl) r,
            mark-Decides p true s (λ y k. absurd (ground arith)) (inl (sym at)),
            ground (arith, get-mark p p true s, eq_refl p),
          )
      | inr other ↦
          let (x, t, e', r', d, c, k) =
            any_parent_lem f (look next b f) p (next p) s (look_lem f) (λ q i. i) r (omega arith) in
          let back : Reaches next p b → x ≡ true = λ w. elim (Reaches-split w) [
            | inl at ↦ absurd (ground (arith, (eq_iff p b).1 at))
            | inr v ↦ c.1 v
          ] in
          let forth : x ≡ true → Reaches next p b = λ v. let (q, i, w) = c.0 v in step i w in
          (
            x,
            mark p x t,
            ground arith,
            mark-IsRight p x t (forth, back) r',
            Decides-trans (Reaches next p) (Reaches next p) s t (mark p x t) (λ j w. w) d
                (mark-Decides p x t
                  (λ y g.
                    let o = r'.right p y g in Bool_ext y x (λ v. back (o.0 v)) (λ v. o.1 (forth v)))
                  (inr k)),
            ground (arith, get-mark p p x t, eq_refl p),
          )
    ]
  ]

  -- All nodes on the way from a decided node to `b` are decided.
  decided_between :
      (t : Between)
      → ((k : String) (x : Bool)
          → get t.between k ≡ some x
          → (b ≡ k)
            ⊎ ((q : String) → contains q (next k) ≡ true → (y : Bool) × (get t.between q ≡ some y)))
      → {p k : String} → Reaches next p k
      → Reaches next k b
      → (x : Bool) → get t.between p ≡ some x
      → (y : Bool) × (get t.between k ≡ some y)
  decided_between t c here v x e = (x, e)
  decided_between t c (step {a = p} {b = q} i w) v x e = elim (c p x e) [
    | inl at_b ↦ absurd (omega (arith, falls p q i, Reaches-le w, Reaches-le v, ap rank at_b))
    | inr all ↦ let (y, e') = all q i in decided_between t c w v y e'
  ]

-- In a graph without cycles getNodesBetween returns, given fuel above the rank of the first
-- node, and returns exactly the two nodes and the nodes that are both ancestors of the first and
-- descendants of the second.
pub get_nodes_between_lem :
    (fuel : ℕ) (g : Graph) (rank : String → ℕ) (a b : String)
    → IsAcyclic g rank
    → rank a < fuel
    → (ns : List String) × (get_nodes_between fuel g a b ≡ some ns)
      × ((k : String)
          → (contains k ns ≡ true)
            ↔ ((a ≡ k) ⊎ (b ≡ k) ⊎ (Reaches (parents_of g) a k × Reaches (parents_of g) k b)))
unfolding get_nodes_between contains get
get_nodes_between_lem fuel g rank a b acyclic h =
    let next = parents_of g in
    let s : Between = record { between = []; found = a ∷ b ∷ [] } in
    let start : IsRight next rank acyclic.falls a b s = record {
      right = λ k x e. absurd (ground arith);
      listed = λ k. ground (arith, eq_iff a k, eq_iff b k);
    } in
    let (x, t, e, r, d, k0) = look_lem next rank acyclic.falls a b fuel a s start h in
    (
      t.found,
      ground arith,
      λ k. (
        λ i. elim ((r.listed k).0 i) [
          | inl at_a ↦ inl at_a
          | inr (inl at_b) ↦ inr (inl at_b)
          | inr (inr v) ↦ inr (
              inr (elim (d.met k true v) [
                | inl old ↦ absurd (ground arith)
                | inr w ↦ (w, (r.right k true v).0 refl)
              ]))
        ],
        λ o. elim o [
          | inl at_a ↦ (r.listed k).1 (inl at_a)
          | inr (inl at_b) ↦ (r.listed k).1 (inr (inl at_b))
          | inr (inr (w, v)) ↦
              let (y, e') =
                decided_between next rank acyclic.falls a b t
                  (λ j z q. elim (d.closed j z q) [ inl old ↦ absurd (ground arith) | inr n ↦ n ]) w
                  v x k0 in
              (r.listed k).1 (inr (inr (e' ∙ ap some ((r.right k y e').1 v))))
        ],
      ),
    )
