-- ===== src/Parsers/Auth/Steps.antt =====
-- The cases of `auth_parse_byte` of src/parsers/auth_parser.c, state by state.
use tpe_socks.Prelude.{
  ℕ, suc, ◌+◌, ◌%◌, ltb, ◌<◌, ◌≡◌, refl, List, arith, length, set, length-set, inl, inr, Bool-cases,
  ◌==◌,
}
use tpe_socks.Parsers.Auth.{
  Target, null, in_username, in_password, auth_ver, auth_ulen, auth_uname, auth_plen, auth_passwd,
  auth_done, auth_error, auth_parse_byte,
}
use tpe_socks.Parsers.Auth.Aims.{IsSafe, StepSafe}

module _ (i left : ℕ) (un pw : List ℕ) (byte : ℕ) where
  pub plain_uname :
      (left < 256)
      → IsSafe (record {
        state = auth_uname;
        to_parse = left;
        where_to = in_username i;
        username = un;
        password = pw;
      })
      → StepSafe
          (record {
            state = auth_uname;
            to_parse = left;
            where_to = in_username i;
            username = un;
            password = pw;
          })
          byte
  unfolding auth_parse_byte
  plain_uname l v =
      let e : i + 0 ≡ i = omega arith in
      elim (Bool-cases ((left + 255) % 256 == 0)) [
        | inl z ↦ inl (
          record {
            state = auth_plen;
            to_parse = (left + 255) % 256;
            where_to = null;
            username = set un i byte;
            password = pw;
          },
          rw e (ground arith),
          ground (arith, length-set un i byte),
        )
        | inr z ↦ inl (
          record {
            state = auth_uname;
            to_parse = (left + 255) % 256;
            where_to = in_username (suc i);
            username = set un i byte;
            password = pw;
          },
          rw e (ground arith),
          ground (arith, length-set un i byte),
        )
      ]

  pub plain_passwd :
      (left < 256)
      → IsSafe (record {
        state = auth_passwd;
        to_parse = left;
        where_to = in_password i;
        username = un;
        password = pw;
      })
      → StepSafe
          (record {
            state = auth_passwd;
            to_parse = left;
            where_to = in_password i;
            username = un;
            password = pw;
          })
          byte
  unfolding auth_parse_byte
  plain_passwd l v =
      let e : i + 0 ≡ i = omega arith in
      elim (Bool-cases ((left + 255) % 256 == 0)) [
        | inl z ↦ inl (
          record {
            state = auth_done;
            to_parse = (left + 255) % 256;
            where_to = null;
            username = un;
            password = set pw i byte;
          },
          rw e (ground arith),
          ground (arith, length-set pw i byte),
        )
        | inr z ↦ inl (
          record {
            state = auth_passwd;
            to_parse = (left + 255) % 256;
            where_to = in_password (suc i);
            username = un;
            password = set pw i byte;
          },
          rw e (ground arith),
          ground (arith, length-set pw i byte),
        )
      ]

module _ (left : ℕ) (t : Target) (un pw : List ℕ) (byte : ℕ) where
  pub length_username :
      IsSafe
        (record { state = auth_ulen; to_parse = left; where_to = t; username = un; password = pw })
      → StepSafe
          (record {
            state = auth_ulen;
            to_parse = left;
            where_to = t;
            username = un;
            password = pw;
          })
          byte
  unfolding auth_parse_byte
  length_username v =
      let e : 0 + byte ≡ byte = omega arith in
      elim (Bool-cases (byte == 0)) [
        | inl z ↦ inl (
          record { state = auth_plen; to_parse = left; where_to = t; username = un; password = pw },
          ground arith,
          record { username_size = v.username_size; password_size = v.password_size; aims = tt },
        )
        | inr nz ↦ elim (Bool-cases (ltb byte (length un))) [
          | inl fits ↦ inl (
            record {
              state = auth_uname;
              to_parse = byte;
              where_to = in_username 0;
              username = set un byte 0;
              password = pw;
            },
            rw e (ground arith),
            ground (arith, length-set un byte 0),
          )
          | inr over ↦ inr (rw e (ground arith), refl, ground arith)
        ]
      ]

  pub length_password :
      IsSafe
        (record { state = auth_plen; to_parse = left; where_to = t; username = un; password = pw })
      → StepSafe
          (record {
            state = auth_plen;
            to_parse = left;
            where_to = t;
            username = un;
            password = pw;
          })
          byte
  unfolding auth_parse_byte
  length_password v =
      let e : 0 + byte ≡ byte = omega arith in
      elim (Bool-cases (byte == 0)) [
        | inl z ↦ inl (
          record { state = auth_done; to_parse = left; where_to = t; username = un; password = pw },
          ground arith,
          record { username_size = v.username_size; password_size = v.password_size; aims = tt },
        )
        | inr nz ↦ elim (Bool-cases (ltb byte (length pw))) [
          | inl fits ↦ inl (
            record {
              state = auth_passwd;
              to_parse = byte;
              where_to = in_password 0;
              username = un;
              password = set pw byte 0;
            },
            rw e (ground arith),
            ground (arith, length-set pw byte 0),
          )
          | inr over ↦ inr (rw e (ground arith), refl, ground arith)
        ]
      ]

  pub version :
      IsSafe
        (record { state = auth_ver; to_parse = left; where_to = t; username = un; password = pw })
      → StepSafe
          (record { state = auth_ver; to_parse = left; where_to = t; username = un; password = pw })
          byte
  unfolding auth_parse_byte
  version v = elim (Bool-cases (byte == 1)) [
    | inl one ↦ inl (
      record { state = auth_ulen; to_parse = left; where_to = t; username = un; password = pw },
      ground arith,
      record { username_size = v.username_size; password_size = v.password_size; aims = tt },
    )
    | inr other ↦ inl (
      record { state = auth_error; to_parse = left; where_to = t; username = un; password = pw },
      ground arith,
      record { username_size = v.username_size; password_size = v.password_size; aims = tt },
    )
  ]
