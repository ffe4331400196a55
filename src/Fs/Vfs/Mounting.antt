-- ===== src/Fs/Vfs/Mounting.antt =====
-- CourseWorks/infos/fs/vfs-node.cpp: `mount`, and lookups and mounts one after another.
use inf3_os.Util.Equality.{same_list, same_list-eq, same_list-ne}
use native.Mathlib.Decide.{ℕ_discrete}
use inf3_os.Base.{
  ℕ, ◌≡◌, ◌≢◌, refl, sym, ap, ◌∙◌, subst, false, List, Option, none, some, if◌then◌else◌, ◌==◌,
  ==_refl, Bool-cases, inl, inr, arith, some_inj,
}
use inf3_os.Util.Map
use inf3_os.Util.Map.{Map, try_get_value}
use inf3_os.Util.Map.Adding.{IsMap}
use inf3_os.Fs.Forest.{reach_unique, some-ne-none}
use inf3_os.Fs.Cutting.{is_under, not_under_itself, IsCut, cut-IsForest, reach_cut}
use inf3_os.Fs.Growing.{links, new-IsMap}
use inf3_os.Fs.Vfs.{VfsNode, Nodes, remount}
use inf3_os.Fs.Vfs.Resolving.{Mounts, resolve, mounted_at, resolve_top, resolve_elsewhere}
use inf3_os.Fs.Vfs.Caching.{IsCache, maps_of, node_at}

module _ (pfs : ℕ → ℕ → Option ℕ) (mounts : Mounts) (nodes : Nodes) (top : List ℕ) (n pn : ℕ)
    (cache : IsCache pfs mounts nodes) (at_top : node_at nodes top ≡ some n) where
  at_n : (remount nodes n pn).at n ≡ record (nodes.at n) { pn = some pn; children = Map.new }
  unfolding remount Map.clear
  at_n = rw (==_refl n) refl

  at_other : (m : ℕ) → m ≢ n → (remount nodes n pn).at m ≡ nodes.at m
  unfolding remount
  at_other m other = let differs : (m == n) ≡ false = ground (arith, other) in rw differs refl

  cut : IsCut (links (maps_of nodes)) (links (maps_of (remount nodes n pn))) n
  unfolding try_get_value Map.find
  cut = record {
    gone = λ key. ap (λ (node : VfsNode). try_get_value node.children key) at_n;
    others =
        λ m key other. ap (λ (node : VfsNode). try_get_value node.children key) (at_other m other);
  }

  left :
      (q : List ℕ)
      → node_at (remount nodes n pn) q ≡ (if is_under top q then none else node_at nodes q)
  left =
      reach_cut (links (maps_of nodes)) (links (maps_of (remount nodes n pn))) 0 nodes.counter n top
        cache.forest cut at_top

  kept_path :
      (q : List ℕ) (m : ℕ)
      → node_at (remount nodes n pn) q ≡ some m
      → (is_under top q ≡ false) × (node_at nodes q ≡ some m)
  kept_path q m h = elim (Bool-cases (is_under top q)) [
    | inl under ↦ absurd (some-ne-none (sym h ∙ left q ∙ rw under refl))
    | inr apart ↦ (apart, sym (left q ∙ rw apart refl) ∙ h)
  ]

  remount-IsMap : (m : ℕ) → IsMap (maps_of (remount nodes n pn) m)
  remount-IsMap m = elim (ℕ_discrete m n) [
    | yes e ↦
        subst (λ k. IsMap (maps_of (remount nodes n pn) k)) (sym e)
          (subst (λ (c : Map ℕ). IsMap c) (sym (ap VfsNode.children at_n)) new-IsMap)
    | no other ↦
        subst (λ (c : Map ℕ). IsMap c) (sym (ap VfsNode.children (at_other m other))) (cache.maps m)
  ]

  -- The nodes after a mount remember the table after it.
  pub remount-IsCache : IsCache pfs (mounted_at mounts top pn) (remount nodes n pn)
  unfolding remount
  remount-IsCache = record {
    maps = remount-IsMap;
    forest =
        cut-IsForest (links (maps_of nodes)) (links (maps_of (remount nodes n pn))) 0 nodes.counter
          n top cache.forest cut at_top;
    resolved = λ q m h.
        let (apart, before) = kept_path q m h in
        elim (Bool-cases (same_list q top)) [
          | inl same ↦
              let e = same_list-eq q top same in
              let is_n : m ≡ n = some_inj (sym before ∙ ap (node_at nodes) e ∙ at_top) in
              (
                pn,
                ap (λ k. VfsNode.pn ((remount nodes n pn).at k)) is_n ∙ ap VfsNode.pn at_n,
                ap (resolve pfs (mounted_at mounts top pn)) e ∙ resolve_top pfs mounts top pn,
              )
          | inr other ↦
              let (old, shown, resolved) = cache.resolved q m before in
              (
                old,
                ap VfsNode.pn (
                      at_other m (λ e. same_list-ne q top other (
                        reach_unique (links (maps_of nodes)) 0 nodes.counter cache.forest q top n
                          (before ∙ ap some e) at_top)))
                    ∙ shown,
                resolve_elsewhere pfs mounts top pn q other apart ∙ resolved,
              )
        ];
    kept = λ q h. elim (Bool-cases (same_list q top)) [
      | inl same ↦
          let e = same_list-eq q top same in
          let here : node_at (remount nodes n pn) top ≡ some n =
            left top ∙ rw (not_under_itself top) at_top in
          let bad = sym h ∙ ap (node_at (remount nodes n pn)) e ∙ here in cc
      | inr other ↦ elim (Bool-cases (is_under top q)) [
        | inl under ↦ rw (other, under) refl
        | inr apart ↦ rw (other, apart) (cache.kept q (sym (left q ∙ rw apart refl) ∙ h))
      ]
    ];
  }
