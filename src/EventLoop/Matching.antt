-- ===== src/EventLoop/Matching.antt =====
-- paf/eventloop.py: the two tables of file descriptors, when a source enters and when it leaves.
use paf.Prelude.{
  ℕ, ◌≡◌, refl, sym, ◌∙◌, Bool, true, false, Option, none, some, nat_eq, nat_beq, nat_beq_iff,
  arith, if◌then◌else◌,
}
use paf.Prelude.Dict.{
  Dict, lookup, insert, erase, IsUnique, lookup-insert, lookup-erase_ne, lookup-erase_self,
}
use paf.EventLoop.Synced.{Matches}

pub enter-Matches :
    (s fd : ℕ) (mask : Option ℕ) (fds : Dict ℕ (ℕ × Option ℕ)) (owners : Dict ℕ ℕ)
    → Matches fds owners
    → lookup s fds ≡ none
    → lookup fd owners ≡ none
    → Matches (insert s (fd, mask) fds) (insert fd s owners)
enter-Matches s fd mask fds owners m new free fd' j = (owned, owner)
  where
    owned :
        lookup fd' (insert fd s owners) ≡ some j
        → (mask' : Option ℕ) × (lookup j (insert s (fd, mask) fds) ≡ some (fd', mask'))
    owned e = go (nat_beq fd fd') refl (sym (lookup-insert fd fd' s owners) ∙ e)
      where
        go :
            (b : Bool)
            → nat_beq fd fd' ≡ b
            → (if b then some s else lookup fd' owners) ≡ some j
            → (mask' : Option ℕ) × (lookup j (insert s (fd, mask) fds) ≡ some (fd', mask'))
        go true same is_s = (
          mask,
          ground (arith, lookup-insert s j (fd, mask) fds, nat_beq_iff fd fd', nat_beq_iff s j),
        )
        go false other was =
            let (mask', there) = (m fd' j).0 was in
            (mask', ground (arith, there, new, lookup-insert s j (fd, mask) fds, nat_beq_iff s j))

    owner :
        (mask' : Option ℕ)
        → lookup j (insert s (fd, mask) fds) ≡ some (fd', mask')
        → lookup fd' (insert fd s owners) ≡ some j
    owner mask' e = go (nat_beq s j) refl (sym (lookup-insert s j (fd, mask) fds) ∙ e)
      where
        go :
            (b : Bool)
            → nat_beq s j ≡ b
            → (if b then some (fd, mask) else lookup j fds) ≡ some (fd', mask')
            → lookup fd' (insert fd s owners) ≡ some j
        go true same is_fd =
            ground (arith, lookup-insert fd fd' s owners, nat_beq_iff fd fd', nat_beq_iff s j)
        go false other was =
            let before = (m fd' j).1 mask' was in
            ground (arith, before, free, lookup-insert fd fd' s owners, nat_beq_iff fd fd')

pub leave-Matches :
    (s fd : ℕ) (mask : Option ℕ) (fds : Dict ℕ (ℕ × Option ℕ)) (owners : Dict ℕ ℕ)
    → Matches fds owners
    → IsUnique fds
    → IsUnique owners
    → lookup s fds ≡ some (fd, mask)
    → Matches (erase s fds) (erase fd owners)
leave-Matches s fd mask fds owners m u u' there fd' j = (owned, owner)
  where
    mine : lookup fd owners ≡ some s
    mine = (m fd s).1 mask there

    owned :
        lookup fd' (erase fd owners) ≡ some j
        → (mask' : Option ℕ) × (lookup j (erase s fds) ≡ some (fd', mask'))
    owned e = go (nat_beq fd fd') refl
      where
        go :
            (b : Bool)
            → nat_beq fd fd' ≡ b
            → (mask' : Option ℕ) × (lookup j (erase s fds) ≡ some (fd', mask'))
        go true same = ground (arith, lookup-erase_self fd owners u', nat_beq_iff fd fd')
        go false other =
            let was : lookup fd' owners ≡ some j =
              ground (arith, lookup-erase_ne fd fd' owners, nat_beq_iff fd fd') in
            let (mask', before) = (m fd' j).0 was in
            (
              mask',
              ground (
                arith,
                before,
                there,
                lookup-erase_ne s j fds,
                nat_beq_iff fd fd',
                nat_beq_iff s j,
              ),
            )

    owner :
        (mask' : Option ℕ)
        → lookup j (erase s fds) ≡ some (fd', mask')
        → lookup fd' (erase fd owners) ≡ some j
    owner mask' e = go (nat_beq s j) refl
      where
        go : (b : Bool) → nat_beq s j ≡ b → lookup fd' (erase fd owners) ≡ some j
        go true same = ground (arith, lookup-erase_self s fds u, nat_beq_iff s j)
        go false other =
            let was : lookup j fds ≡ some (fd', mask') =
              ground (arith, lookup-erase_ne s j fds, nat_beq_iff s j) in
            let now : lookup fd' owners ≡ some j = (m fd' j).1 mask' was in
            ground
              (arith, now, mine, lookup-erase_ne fd fd' owners, nat_beq_iff fd fd', nat_beq_iff s j)
