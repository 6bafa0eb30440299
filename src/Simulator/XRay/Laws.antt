-- ===== src/Simulator/XRay/Laws.antt =====
-- The scan compared with the patterns that it looks for.
use sovereign_shadow_mev.Prelude.{
  ℕ, ◌≡◌, refl, arith, Bool, true, false, not, ◌||◌, ◌&&◌, List, [], ◌∷◌, length, contains, ltb,
  ◌==◌, if◌then◌else◌, Option, none, some, ap, ◌∙◌,
}
use sovereign_shadow_mev.Prelude.Assoc.{lookup}
use sovereign_shadow_mev.Models.Errors.{Attempt, Check, MevError, err, ok}
use sovereign_shadow_mev.Mirror.Pools.{StateMirror}
use sovereign_shadow_mev.Simulator.XRay.{is_stop, xray_loop, xray_scan_bytecode}

abbrev pub is_ok {ℓ} : {T : Type ℓ} → Attempt T → Bool
is_ok (ok a) = true
is_ok _ = false

-- A stop, REVERT or INVALID, is somewhere in the code.
abbrev pub has_stop : List ℕ → Bool
has_stop [] = false
has_stop (b ∷ bs) = is_stop b || has_stop bs

-- A stop comes after an SLOAD.
abbrev pub has_sload_stop : List ℕ → Bool
has_sload_stop [] = false
has_sload_stop (b ∷ bs) = ((b == 0x54) && has_stop bs) || has_sload_stop bs

-- A CALLER, later an SLOAD, and later a stop.
abbrev pub has_jail : List ℕ → Bool
has_jail [] = false
has_jail (b ∷ bs) = ((b == 0x33) && has_sload_stop bs) || has_jail bs

-- The jail that is left to find, given what was found.
abbrev jail_from : Bool → Bool → List ℕ → Bool
jail_from caller sload code =
    (sload && has_stop code) || (caller && has_sload_stop code) || has_jail code

-- A code of `size` bytes that the scan lets pass.
abbrev pub is_clean : ℕ → Bool → List ℕ → Bool
is_clean size jail code =
    not (contains code 0xff)
    && not (contains code 0xf4 && ltb size 5000)
    && not (jail && ltb size 4000)
    && not (contains code 0x32 && ltb size 3000)

-- The flags after one more byte, where no byte is both a CALLER and an SLOAD, or an SLOAD and a stop.
jail_step :
    (caller sload c l st hs hss hj : Bool)
    → (c && l) ≡ false
    → (l && st) ≡ false
    → ((sload || ((caller || c) && l)) && st)
        || (((sload || ((caller || c) && l)) && hs) || ((caller || c) && hss) || hj)
      ≡ (sload && (st || hs)) || (caller && ((l && hs) || hss)) || ((c && hss) || hj)
jail_step caller sload c l st hs hss hj e1 e2 = ground arith

clean_step :
    (f d s st o s5 s4 s3 ff f4 j f2 : Bool)
    → (not f
        && not (d && s5)
        && not (s && st && s4)
        && not (o && s3)
        && (not ff && not (f4 && s5) && not (j && s4) && not (f2 && s3)))
      ≡ (not (f || ff)
          && not ((d || f4) && s5)
          && not (((s && st) || j) && s4)
          && not ((o || f2) && s3))
clean_step f d s st o s5 s4 s3 ff f4 j f2 = ground arith

ok_step :
    (f d s o : Bool) (e1 e2 e3 e4 : MevError) (later : Check)
    → is_ok (
        if f
        then err e1
        else if d
        then err e2
        else if s
        then err e3
        else if o
        then err e4
        else later)
      ≡ (not f && not d && not s && not o && is_ok later)
ok_step true d s o e1 e2 e3 e4 later = refl
ok_step false true s o e1 e2 e3 e4 later = refl
ok_step false false true o e1 e2 e3 e4 later = refl
ok_step false false false true e1 e2 e3 e4 later = refl
ok_step false false false false e1 e2 e3 e4 later = refl

xray_loop-is_clean :
    (size : ℕ) (code : List ℕ) (caller sload : Bool)
    → is_ok (xray_loop size code caller sload) ≡ is_clean size (jail_from caller sload code) code
unfolding xray_loop contains
xray_loop-is_clean size [] caller sload = ground arith
xray_loop-is_clean size (b ∷ bs) caller sload =
    let c = caller || (b == 0x33) in
    let s = sload || (c && (b == 0x54)) in
    ok_step (b == 0xff) ((b == 0xf4) && ltb size 5000) (s && is_stop b && ltb size 4000)
      ((b == 0x32) && ltb size 3000) _ _ _ _ (xray_loop size bs c s)
    ∙ ap
        (λ r.
          not (b == 0xff)
          && not ((b == 0xf4) && ltb size 5000)
          && not (s && is_stop b && ltb size 4000)
          && not ((b == 0x32) && ltb size 3000)
          && r)
        (xray_loop-is_clean size bs c s)
    ∙ clean_step (b == 0xff) (b == 0xf4) s (is_stop b) (b == 0x32) (ltb size 5000) (ltb size 4000)
        (ltb size 3000) (contains bs 0xff) (contains bs 0xf4) (jail_from c s bs) (contains bs 0x32)
    ∙ ap (λ jail. is_clean size jail (b ∷ bs))
        (jail_step caller sload (b == 0x33) (b == 0x54) (is_stop b) (has_stop bs)
          (has_sload_stop bs) (has_jail bs) (ground arith) (ground arith))

scanned-is_clean :
    (found : Option (List ℕ))
    → is_ok {T = Unit {0}}
        (elim found [ none ↦ ok tt | some code ↦ xray_loop (length code) code false false ])
      ≡ elim found [ none ↦ true | some code ↦ is_clean (length code) (has_jail code) code ]
scanned-is_clean none = refl
scanned-is_clean (some code) = xray_loop-is_clean (length code) code false false

-- A token passes the scan exactly if its byte code is not there, or has no SELFDESTRUCT, with fewer
-- than 5000 bytes no DELEGATECALL, with fewer than 4000 bytes no CALLER that is followed by an
-- SLOAD and that by a REVERT or an INVALID, at any distance, and with fewer than 3000 bytes no
-- ORIGIN.
pub xray_scan_bytecode-is_clean :
    (m : StateMirror) (token : ℕ)
    → is_ok (xray_scan_bytecode m token) ≡ elim (lookup token m.bytecodes) [
      | none ↦ true
      | some code ↦ is_clean (length code) (has_jail code) code
    ]
unfolding xray_scan_bytecode
xray_scan_bytecode-is_clean m token = scanned-is_clean (lookup token m.bytecodes)
