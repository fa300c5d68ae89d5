-- ===== src/Room/Lobby/Population.antt =====
-- The users that Room::WriteTo writes and keeps.
use recap_server.Prelude.{
  ℕ, suc, ◌+◌, ◌%◌, ◌<◌, ◌≡◌, Bool, [], ◌∷◌, map, if◌then◌else◌, length, Bool-cases, inl, inr,
  arith,
}
use recap_server.Prelude.Bytes.{u32_mod}
use recap_server.Map.{Map}
use recap_server.Room.Puts.{Put, put_integer}
use recap_server.Room.Lobby.{write_users}

-- The users whose pointers have not expired, in order.
abbrev pub alive : (ℕ → Bool) → Map ℕ → Map ℕ
alive expired [] = []
alive expired ((id, u) ∷ users) =
    if expired u then alive expired users else (id, u) ∷ alive expired users

abbrev pub put_id : ℕ × ℕ → Put
put_id e = put_integer "" e.0

-- The loop of Room::WriteTo over the users, started with a population below 2 ^ 32, keeps exactly
-- the users whose pointers have not expired, in order, puts their identifiers in this order, and
-- adds their number to the population modulo 2 ^ 32.
pub write_users_lem :
    (expired : ℕ → Bool) (users : Map ℕ) (population : ℕ)
    → population < u32_mod
    → write_users expired users population ≡ (
      alive expired users,
      map put_id (alive expired users),
      (population + length (alive expired users)) % u32_mod,
    )
unfolding write_users
write_users_lem expired [] population h =
    let e : population ≡ (population + 0) % u32_mod = ground arith in λ i. ([], [], e i)
write_users_lem expired ((id, u) ∷ users) population h = elim (Bool-cases (expired u)) [
  | inl e ↦ rw (e, write_users) (write_users_lem expired users population h)
  | inr e ↦
      let next : (population + 1) % u32_mod < u32_mod = omega arith in
      let same : ((population + 1) % u32_mod + length (alive expired users)) % u32_mod
          ≡ (population + suc (length (alive expired users))) % u32_mod =
        omega arith in
      rw (e, write_users)
        (rw (write_users_lem expired users ((population + 1) % u32_mod) next) (λ i. (
          (id, u) ∷ alive expired users,
          put_integer "" id ∷ map put_id (alive expired users),
          same i,
        )))
]
