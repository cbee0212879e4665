-- ===== src/Tests/Isolation.antt =====
-- Bob's login and the row of Ann.
use proyecto_verde_auth.Api.Invariant.{Request, a_login}
use proyecto_verde_auth.Api.Isolation.{subject, Request-Isolated}
use proyecto_verde_auth.Auth.Login.{user_of}
use proyecto_verde_auth.Auth.Service.{login_body}
use proyecto_verde_auth.Base.{◌≡◌, refl, false, codes, holds, same, first, arith, text_field}
use proyecto_verde_auth.Tests.Demo.{demo, demo-IsDatabase, system, draws, origin}
use proyecto_verde_auth.Users.Others.{row_of}

abbrev of_bob :
    Request demo system
      (login_body demo draws 7 origin
        (text_field (codes "bob@bv"))
        (text_field (codes "pw"))
        system).1
of_bob =
    a_login draws 7 origin (text_field (codes "bob@bv")) (text_field (codes "pw")) (omega arith)

not_ann : holds (subject of_bob) (codes "1") ≡ false
unfolding user_of first same
not_ann = refl

Request-Isolated_example :
    row_of
      (codes "1")
      (login_body demo draws 7 origin
        (text_field (codes "bob@bv"))
        (text_field (codes "pw"))
        system).1
    ≡ row_of (codes "1") system
Request-Isolated_example = Request-Isolated demo demo-IsDatabase of_bob (codes "1") not_ann
