-- ===== src/Screen/Defaults.antt =====
-- src/hostLib/ScreenData.cpp: DEFAULT_SCREENS.
use dream_pico_port.Prelude.{ℕ, List, [], ◌∷◌}

abbrev screen_0 : List ℕ
screen_0 =
    0x00000000 ∷ 0x00000000 ∷ 0x00000000 ∷ 0x00000577 ∷ 0xEDFC0000 ∷ 0x5B134904 ∷ 0x000076D7
    ∷ 0x61740FC0 ∷ 0x408A4574 ∷ 0x1FE02FF5 ∷ 0x8D743870 ∷ 0x447B7D04 ∷ 0x37B00D7F ∷ 0x6DFC37B0
    ∷ 0x0C491400 ∷ 0x30303FCF ∷ 0xCB6C3FF0 ∷ 0x1925083C ∷ 0x1FE04C26 ∷ 0x4BCC0000 ∷ 0x3432D69C
    ∷ 0x000008E7 ∷ 0x3FD80000 ∷ 0x56375488 ∷ 0x186055EF ∷ 0xE5901860 ∷ 0x7F36B4E4 ∷ 0x1860434E
    ∷ 0x0F581860 ∷ 0x4BE878F0 ∷ 0x1FE0160F ∷ 0xF1441FE0 ∷ 0x36B2722C ∷ 0x186074EF ∷ 0x6FE41860
    ∷ 0x0040E000 ∷ 0x18607F55 ∷ 0x55FC1860 ∷ 0x4101C104 ∷ 0x1FE05D3D ∷ 0xF5740FC0 ∷ 0x5D4EC174
    ∷ 0x00005D32 ∷ 0xE5740000 ∷ 0x412DB504 ∷ 0x00007F12 ∷ 0xA5FC0000 ∷ 0x00000000 ∷ []

abbrev screen_1 : List ℕ
screen_1 =
    0x00000000 ∷ 0x00000000 ∷ 0x00000000 ∷ 0x00000577 ∷ 0xEDFC0000 ∷ 0x5B134904 ∷ 0x000076D7
    ∷ 0x61740FC0 ∷ 0x408A4574 ∷ 0x1FE02FF5 ∷ 0x8D743870 ∷ 0x447B7D04 ∷ 0x37B00D7F ∷ 0x6DFC37B0
    ∷ 0x0C491400 ∷ 0x30303FCF ∷ 0xCB6C3FF0 ∷ 0x1925083C ∷ 0x1FE04C26 ∷ 0x4BCC0000 ∷ 0x3432D69C
    ∷ 0x000008E7 ∷ 0x3FD80000 ∷ 0x56375488 ∷ 0x0FE055EF ∷ 0xE5901FE0 ∷ 0x7F36B4E4 ∷ 0x1860434E
    ∷ 0x0F581860 ∷ 0x4BE878F0 ∷ 0x1860160F ∷ 0xF1440FE0 ∷ 0x36B2722C ∷ 0x0FE074EF ∷ 0x6FE41860
    ∷ 0x0040E000 ∷ 0x18607F55 ∷ 0x55FC1860 ∷ 0x4101C104 ∷ 0x1FE05D3D ∷ 0xF5740FE0 ∷ 0x5D4EC174
    ∷ 0x00005D32 ∷ 0xE5740000 ∷ 0x412DB504 ∷ 0x00007F12 ∷ 0xA5FC0000 ∷ 0x00000000 ∷ []

abbrev screen_2 : List ℕ
screen_2 =
    0x00000000 ∷ 0x00000000 ∷ 0x00000000 ∷ 0x00000577 ∷ 0xEDFC0000 ∷ 0x5B134904 ∷ 0x000076D7
    ∷ 0x61740FC0 ∷ 0x408A4574 ∷ 0x1FE02FF5 ∷ 0x8D743870 ∷ 0x447B7D04 ∷ 0x37B00D7F ∷ 0x6DFC37B0
    ∷ 0x0C491400 ∷ 0x30303FCF ∷ 0xCB6C3FF0 ∷ 0x1925083C ∷ 0x1FE04C26 ∷ 0x4BCC0000 ∷ 0x3432D69C
    ∷ 0x000008E7 ∷ 0x3FD80000 ∷ 0x56375488 ∷ 0x0FC055EF ∷ 0xE5901FE0 ∷ 0x7F36B4E4 ∷ 0x1860434E
    ∷ 0x0F580060 ∷ 0x4BE878F0 ∷ 0x0060160F ∷ 0xF1440060 ∷ 0x36B2722C ∷ 0x006074EF ∷ 0x6FE40060
    ∷ 0x0040E000 ∷ 0x00607F55 ∷ 0x55FC1860 ∷ 0x4101C104 ∷ 0x1FE05D3D ∷ 0xF5740FC0 ∷ 0x5D4EC174
    ∷ 0x00005D32 ∷ 0xE5740000 ∷ 0x412DB504 ∷ 0x00007F12 ∷ 0xA5FC0000 ∷ 0x00000000 ∷ []

abbrev screen_3 : List ℕ
screen_3 =
    0x00000000 ∷ 0x00000000 ∷ 0x00000000 ∷ 0x00000577 ∷ 0xEDFC0000 ∷ 0x5B134904 ∷ 0x000076D7
    ∷ 0x61740FC0 ∷ 0x408A4574 ∷ 0x1FE02FF5 ∷ 0x8D743870 ∷ 0x447B7D04 ∷ 0x37B00D7F ∷ 0x6DFC37B0
    ∷ 0x0C491400 ∷ 0x30303FCF ∷ 0xCB6C3FF0 ∷ 0x1925083C ∷ 0x1FE04C26 ∷ 0x4BCC0000 ∷ 0x3432D69C
    ∷ 0x000008E7 ∷ 0x3FD80000 ∷ 0x56375488 ∷ 0x07E055EF ∷ 0xE5900FE0 ∷ 0x7F36B4E4 ∷ 0x1C60434E
    ∷ 0x0F581860 ∷ 0x4BE878F0 ∷ 0x1860160F ∷ 0xF1441860 ∷ 0x36B2722C ∷ 0x186074EF ∷ 0x6FE41860
    ∷ 0x0040E000 ∷ 0x18607F55 ∷ 0x55FC1C60 ∷ 0x4101C104 ∷ 0x0FE05D3D ∷ 0xF57407E0 ∷ 0x5D4EC174
    ∷ 0x00005D32 ∷ 0xE5740000 ∷ 0x412DB504 ∷ 0x00007F12 ∷ 0xA5FC0000 ∷ 0x00000000 ∷ []

abbrev pub default_screens : List (List ℕ)
default_screens = screen_0 ∷ screen_1 ∷ screen_2 ∷ screen_3 ∷ []
