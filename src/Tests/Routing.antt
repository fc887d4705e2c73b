-- ===== src/Tests/Routing.antt =====
-- Classes of requests.
use algod_loadb_mesh.Base.{codes}
use algod_loadb_mesh.Domain.Classify.{classify}
use algod_loadb_mesh.Domain.Classify.Routes.{IsRoutable, classify-IsRoutable}

classify-IsRoutable_example :
    IsRoutable (classify (codes "GET") (codes "/v2/accounts/A") (codes "round=5"))
classify-IsRoutable_example =
    classify-IsRoutable (codes "GET") (codes "/v2/accounts/A") (codes "round=5")
