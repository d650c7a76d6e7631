-- ===== src/Domain/Status/Stages.antt =====
-- About `ALLOWED_TRANSITIONS` of src/research_platform/domain/models.py: the stages on the way to a
-- status.
use secure_mcp_multi_agent_r.Base.{
  ◌≡◌, refl, Bool, true, false, List, [], ◌∷◌, arith, if◌then◌else◌, ◌==◌,
}
use secure_mcp_multi_agent_r.Domain.Status.{
  JobStatus, created, planning, researching, analyzing, review_required, reporting, completed,
  failed, partial, status_eq, may_move,
}

-- The statuses of `wanted` stand in `path` in this order, with others between them.
unfoldable pub visits : List JobStatus → List JobStatus → Bool
visits [] path = true
visits (x ∷ xs) [] = false
visits (x ∷ xs) (y ∷ ys) = visits (if x == y then xs else x ∷ xs) ys

-- What a job in this status has still to visit before it is completed.
-- (Nothing leads from the last two to `completed`, so any list serves there.)
abbrev pub stages_left : JobStatus → List JobStatus
stages_left created = planning ∷ researching ∷ analyzing ∷ reporting ∷ completed ∷ []
stages_left planning = researching ∷ analyzing ∷ reporting ∷ completed ∷ []
stages_left researching = analyzing ∷ reporting ∷ completed ∷ []
stages_left analyzing = reporting ∷ completed ∷ []
stages_left review_required = reporting ∷ completed ∷ []
stages_left reporting = completed ∷ []
stages_left completed = []
stages_left failed = planning ∷ researching ∷ analyzing ∷ reporting ∷ completed ∷ []
stages_left partial = planning ∷ researching ∷ analyzing ∷ reporting ∷ completed ∷ []

skip :
    (ys : List JobStatus)
    → ((x : JobStatus) (xs : List JobStatus) → visits (x ∷ xs) ys ≡ true → visits xs ys ≡ true)
    → (xs : List JobStatus) (y : JobStatus) → visits xs ys ≡ true
    → visits xs (y ∷ ys) ≡ true
unfolding visits
skip ys drop [] y h = refl
skip ys drop (x ∷ xs) y h = ground (arith, drop x xs)

drop :
    (ys : List JobStatus) (x : JobStatus) (xs : List JobStatus)
    → visits (x ∷ xs) ys ≡ true
    → visits xs ys ≡ true
unfolding visits
drop [] x xs h = cc
drop (y ∷ ys) x xs h = ground (arith, drop ys x xs, skip ys (drop ys) xs y)

-- From any stage on the way, a shorter list of the stages left is visited too.
later :
    (path : List JobStatus)
    → visits (planning ∷ researching ∷ analyzing ∷ reporting ∷ completed ∷ []) path ≡ true
    → (s : JobStatus) → visits (stages_left s) path ≡ true
later path v s = from s
  where
    two : visits (researching ∷ analyzing ∷ reporting ∷ completed ∷ []) path ≡ true
    two = drop path planning _ v

    three : visits (analyzing ∷ reporting ∷ completed ∷ []) path ≡ true
    three = drop path researching _ two

    four : visits (reporting ∷ completed ∷ []) path ≡ true
    four = drop path analyzing _ three

    five : visits (completed ∷ []) path ≡ true
    five = drop path reporting _ four

    from : (s : JobStatus) → visits (stages_left s) path ≡ true
    from created = v
    from planning = two
    from researching = three
    from analyzing = four
    from review_required = four
    from reporting = five
    from completed = drop path completed [] five
    from failed = v
    from partial = v

-- One allowed step visits its target, and leaves to the rest what is left at the target.
pub visits-may_move :
    (s t : JobStatus) (path : List JobStatus)
    → may_move s t ≡ true
    → visits (stages_left t) path ≡ true
    → visits (stages_left s) (t ∷ path) ≡ true
unfolding may_move visits
visits-may_move created planning path h v = v
visits-may_move created failed path h v = later path v created
visits-may_move planning researching path h v = v
visits-may_move planning failed path h v = later path v planning
visits-may_move researching analyzing path h v = v
visits-may_move researching failed path h v = later path v researching
visits-may_move researching partial path h v = later path v researching
visits-may_move analyzing review_required path h v = v
visits-may_move analyzing reporting path h v = v
visits-may_move analyzing failed path h v = later path v analyzing
visits-may_move analyzing partial path h v = later path v analyzing
visits-may_move review_required researching path h v = drop path analyzing _ v
visits-may_move review_required reporting path h v = v
visits-may_move review_required failed path h v = later path v review_required
visits-may_move reporting completed path h v = v
visits-may_move reporting failed path h v = later path v reporting
visits-may_move reporting partial path h v = later path v reporting
visits-may_move _ _ path h v = cc
