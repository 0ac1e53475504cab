-- ===== src/Staff/AccountsKeep.antt =====
-- application/staff_accounts.py: removing an account.
use drc_pay.Dict.{lookup, values, Dict}
use drc_pay.Staff.{StaffAuth, StaffSession, StaffCredential, credential_by_id}
use drc_pay.Staff.Accounts.{
  removed, last_staff_account, remove_found, delete_credentials, delete_sessions, remove_staff,
  count_sessions,
}
use drc_pay.Base.{
  ◌≡◌, refl, none, some, [], ◌∷◌, ◌==◌, string_eq, nat_eq, arith, Bool-cases, inl, inr, ◌⊎◌, length,
  leb, String, ◌≤◌,
}

count-delete_sessions :
    (id : String) (d : Dict String StaffSession) → count_sessions id (delete_sessions id d) ≡ 0
unfolding count_sessions delete_sessions
count-delete_sessions id [] = refl
count-delete_sessions id ((h, s) ∷ d) = elim (Bool-cases (s.staff_id == id)) [
  | inl e ↦ rw e (count-delete_sessions id d)
  | inr e ↦ rw e (rw e (omega (arith, count-delete_sessions id d)))
]

by_id-delete_credentials :
    (id : String) (d : Dict String StaffCredential)
    → credential_by_id id (values (delete_credentials id d)) ≡ none
unfolding credential_by_id delete_credentials values
by_id-delete_credentials id [] = refl
by_id-delete_credentials id ((u, c) ∷ d) = elim (Bool-cases (c.staff_id == id)) [
  | inl e ↦ rw e (by_id-delete_credentials id d)
  | inr e ↦ rw e (rw e (by_id-delete_credentials id d))
]

-- Removing an account that is there: the only one is refused, and nothing changes; else the number of
-- its sessions is returned, and afterwards it has no session and no credential.
pub remove_staff_lem :
    (username : String) (c : StaffCredential) (a : StaffAuth)
    → lookup username a.credentials ≡ some c
    → ((length a.credentials ≤ 1) × (remove_staff username a ≡ (inl last_staff_account, a)))
      ⊎ ((2 ≤ length a.credentials)
          × (remove_staff username a
              ≡ (inr (count_sessions c.staff_id a.sessions), removed c.staff_id a))
          × (count_sessions c.staff_id (removed c.staff_id a).sessions ≡ 0)
          × (credential_by_id c.staff_id (values (removed c.staff_id a).credentials) ≡ none))
unfolding remove_staff remove_found
remove_staff_lem username c a h = elim (Bool-cases (leb (length a.credentials) 1)) [
  | inl e ↦ inl (ground arith, rw h (rw e refl))
  | inr e ↦ inr (
    ground arith,
    rw h (rw e refl),
    count-delete_sessions c.staff_id a.sessions,
    by_id-delete_credentials c.staff_id a.credentials,
  )
]
