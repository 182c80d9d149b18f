-- ===== src/Socks/Copy/Sides.antt =====
-- The copies and the buffers of the two sides in src/socks5/socks5.c, after one of them was replaced.
use tpe_socks.Prelude.{◌≡◌, refl}
use tpe_socks.Buffer.{Buffer}
use tpe_socks.Socks.Conn.{CopyModel, Side, cli, src, SocksConn}
use tpe_socks.Socks.Copy.{
  aux, copy_of, with_copy, write_buff_of, read_buff_of, with_write_buff, with_read_buff,
}

pub copy_of-with_copy : (s : Side) (m : CopyModel) (c : SocksConn) → copy_of s (with_copy s m c) ≡ m
copy_of-with_copy cli m c = refl
copy_of-with_copy src m c = refl

pub copy_of-aux :
    (s : Side) (m : CopyModel) (c : SocksConn)
    → copy_of (aux s) (with_copy s m c) ≡ copy_of (aux s) c
copy_of-aux cli m c = refl
copy_of-aux src m c = refl

pub write_buff_of-with_copy :
    (t s : Side) (m : CopyModel) (c : SocksConn)
    → write_buff_of t (with_copy s m c) ≡ write_buff_of t c
write_buff_of-with_copy cli cli m c = refl
write_buff_of-with_copy cli src m c = refl
write_buff_of-with_copy src cli m c = refl
write_buff_of-with_copy src src m c = refl

pub copy_of-with_write_buff :
    (t s : Side) (b : Buffer) (c : SocksConn) → copy_of t (with_write_buff s b c) ≡ copy_of t c
copy_of-with_write_buff cli cli b c = refl
copy_of-with_write_buff cli src b c = refl
copy_of-with_write_buff src cli b c = refl
copy_of-with_write_buff src src b c = refl

pub rest_after :
    (s : Side) (b : Buffer) (c : SocksConn)
    → ((with_write_buff s b c).cli_socket ≡ c.cli_socket)
      × ((with_write_buff s b c).src_socket ≡ c.src_socket)
      × ((with_write_buff s b c).pop3_parser ≡ c.pop3_parser)
rest_after cli b c = (refl, refl, refl)
rest_after src b c = (refl, refl, refl)

pub after_own :
    (s : Side) (b : Buffer) (c : SocksConn) → write_buff_of s (with_write_buff s b c) ≡ b
after_own cli b c = refl
after_own src b c = refl

pub after_other :
    (s : Side) (b : Buffer) (c : SocksConn)
    → write_buff_of (aux s) (with_write_buff s b c) ≡ write_buff_of (aux s) c
after_other cli b c = refl
after_other src b c = refl

pub read_own :
    (s : Side) (b : Buffer) (c : SocksConn)
    → write_buff_of s (with_read_buff s b c) ≡ write_buff_of s c
read_own cli b c = refl
read_own src b c = refl

pub read_other :
    (s : Side) (b : Buffer) (c : SocksConn) → write_buff_of (aux s) (with_read_buff s b c) ≡ b
read_other cli b c = refl
read_other src b c = refl

pub copy_of-with_read_buff :
    (t s : Side) (b : Buffer) (c : SocksConn) → copy_of t (with_read_buff s b c) ≡ copy_of t c
copy_of-with_read_buff cli cli b c = refl
copy_of-with_read_buff cli src b c = refl
copy_of-with_read_buff src cli b c = refl
copy_of-with_read_buff src src b c = refl

pub read_after : (s : Side) (b : Buffer) (c : SocksConn) → read_buff_of s (with_read_buff s b c) ≡ b
read_after cli b c = refl
read_after src b c = refl
