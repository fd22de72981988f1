-- ===== src/Cg/Stddev/Square.antt =====
-- dt_cg_agg_stddev: the square of the argument, with the carry that is counted too often.
use dtrace_utils.Common.{ℕ, ◌+◌, ◌≡◌, refl, true, false, ◌==◌}
use dtrace_utils.As.{irlist_label}
use dtrace_utils.Regset.{Regset, ok, free}
use dtrace_utils.Bpf.Block.{Role, val, hi, low, mid, lmd, same}
use dtrace_utils.Bpf.Runs.{eq_self, eq_comm}
use dtrace_utils.Cg.{Pcb, Gen, done, alloc_reg}
use dtrace_utils.Cg.Pool.{Took}
use dtrace_utils.Cg.Emit.{emitted, Took-keeps, Took-self, Took-ne, free_reg-done}
use dtrace_utils.Cg.Binary.{labelled}
use dtrace_utils.Cg.Stddev.{stddev_square}
use dtrace_utils.Cg.Stddev.Runs.{square_nodes, product_nodes, carry_nodes}

abbrev pub regs_of : (v h l m d : ℕ) → Role → ℕ
regs_of v h l m d val = v
regs_of v h l m d hi = h
regs_of v h l m d low = l
regs_of v h l m d mid = m
regs_of v h l m d lmd = d

module _ (v h l m d : ℕ) (vh : (v == h) ≡ false) (vl : (v == l) ≡ false) (vm : (v == m) ≡ false)
    (vd : (v == d) ≡ false) (hl : (h == l) ≡ false) (hm : (h == m) ≡ false) (hd : (h == d) ≡ false)
    (lm : (l == m) ≡ false) (ld : (l == d) ≡ false) (md : (m == d) ≡ false) where
  regs_of-apart : (i j : Role) → (regs_of v h l m d i == regs_of v h l m d j) ≡ same i j
  regs_of-apart val val = eq_self v
  regs_of-apart val hi = vh
  regs_of-apart val low = vl
  regs_of-apart val mid = vm
  regs_of-apart val lmd = vd
  regs_of-apart hi val = eq_comm v h vh
  regs_of-apart hi hi = eq_self h
  regs_of-apart hi low = hl
  regs_of-apart hi mid = hm
  regs_of-apart hi lmd = hd
  regs_of-apart low val = eq_comm v l vl
  regs_of-apart low hi = eq_comm h l hl
  regs_of-apart low low = eq_self l
  regs_of-apart low mid = lm
  regs_of-apart low lmd = ld
  regs_of-apart mid val = eq_comm v m vm
  regs_of-apart mid hi = eq_comm h m hm
  regs_of-apart mid low = eq_comm l m lm
  regs_of-apart mid mid = eq_self m
  regs_of-apart mid lmd = md
  regs_of-apart lmd val = eq_comm v d vd
  regs_of-apart lmd hi = eq_comm h d hd
  regs_of-apart lmd low = eq_comm l d ld
  regs_of-apart lmd mid = eq_comm m d md
  regs_of-apart lmd lmd = eq_self d

not_of :
    (v h l m d j : ℕ)
    → (j == v) ≡ false
    → (j == h) ≡ false
    → (j == l) ≡ false
    → (j == m) ≡ false
    → (j == d) ≡ false
    → (i : Role) → (j == regs_of v h l m d i) ≡ false
not_of v h l m d j a b c e f val = a
not_of v h l m d j a b c e f hi = b
not_of v h l m d j a b c e f low = c
not_of v h l m d j a b c e f mid = e
not_of v h l m d j a b c e f lmd = f

-- The four registers that are taken one after the other, from a state where `v` is in use.
pub record Taken (v h l m d : ℕ) (t0 t1 t2 t3 t4 : Regset) : Type 0 where
  pub busy : t0.active v ≡ true
  pub first : Took h t0 t1
  pub second : Took l t1 t2
  pub third : Took m t2 t3
  pub fourth : Took d t3 t4

module _ {v h l m d : ℕ} {t0 t1 t2 t3 t4 : Regset} (a : Taken v h l m d t0 t1 t2 t3 t4) where
  pub Taken-apart : (i j : Role) → (regs_of v h l m d i == regs_of v h l m d j) ≡ same i j
  Taken-apart =
      let v1 = Took-keeps a.first v a.busy in
      let v2 = Took-keeps a.second v v1 in
      let v3 = Took-keeps a.third v v2 in
      let h1 = Took-self a.first in
      let h2 = Took-keeps a.second h h1 in
      let h3 = Took-keeps a.third h h2 in
      let l2 = Took-self a.second in
      let l3 = Took-keeps a.third l l2 in
      let m3 = Took-self a.third in
      regs_of-apart v h l m d (Took-ne a.first v a.busy) (Took-ne a.second v v1)
        (Took-ne a.third v v2) (Took-ne a.fourth v v3) (Took-ne a.second h h1)
        (Took-ne a.third h h2) (Took-ne a.fourth h h3) (Took-ne a.third l l2)
        (Took-ne a.fourth l l3) (Took-ne a.fourth m m3)

  -- A register in use before is none of them.
  pub Taken-ne :
      (j : ℕ)
      → t0.active j ≡ true
      → (j == v) ≡ false
      → (i : Role) → (j == regs_of v h l m d i) ≡ false
  Taken-ne j b n i =
      let j1 = Took-keeps a.first j b in
      let j2 = Took-keeps a.second j j1 in
      let j3 = Took-keeps a.third j j2 in
      not_of v h l m d j n (Took-ne a.first j b) (Took-ne a.second j j1) (Took-ne a.third j j2)
        (Took-ne a.fourth j j3) i

module _ (base : ℕ) where
  pub stddev_square-done :
      (arg : Gen ℕ) (c c1 : Pcb) (v h l m d : ℕ) (t1 t2 t3 t4 u3 u2 : Regset)
      → arg (labelled (c.ir.next_label + 1 + 1) c) ≡ done v c1
      → alloc_reg base c1 ≡ done h (record c1 { regs = t1 })
      → alloc_reg base (record c1 { regs = t1 }) ≡ done l (record c1 { regs = t2 })
      → alloc_reg base (record c1 { regs = t2 }) ≡ done m (record c1 { regs = t3 })
      → alloc_reg base (record c1 { regs = t3 }) ≡ done d (record c1 { regs = t4 })
      → free d t4 ≡ ok tt u3
      → t4.spilled d ≡ false
      → free m u3 ≡ ok tt u2
      → u3.spilled m ≡ false
      → stddev_square base arg c
        ≡ done
            (record { arg_reg = v; hi_reg = h; low_reg = l })
            (record c1 {
              ir =
                  emitted
                    (square_nodes (regs_of v h l m d) (c.ir.next_label + 1) c.ir.next_label)
                    c1.ir;
              regs = u2;
            })
  unfolding stddev_square irlist_label emitted square_nodes product_nodes carry_nodes
  stddev_square-done arg c c1 v h l m d t1 t2 t3 t4 u3 u2 ea e1 e2 e3 e4 fd sd fm sm =
      let ir =
        emitted (square_nodes (regs_of v h l m d) (c.ir.next_label + 1) c.ir.next_label) c1.ir in
      let g1 = free_reg-done base (record c1 { ir = ir; regs = t4 }) d u3 fd sd in
      let g2 = free_reg-done base (record c1 { ir = ir; regs = u3 }) m u2 fm sm in
      rw (stddev_square, ea, e1, e2, e3, e4, g1, g2) refl
